-- ===== src/Executor/Queue.antt =====
-- command_executor.cpp, `enqueue`, `run`, `execute` and `send_ack`: the queue between the threads that
-- receive commands and the worker.
use karshipta.Common.{
  Bool, true, false, List, [], ◌∷◌, ◌++◌, Option, none, some, if◌then◌else◌, Text, text,
}
use karshipta.Messages.{
  CommandAction, action_not_set, Command, CommandStatus, accepted, success, rejected, CommandAck,
}
use karshipta.Executor.Vehicle.{Vehicle, Float}
use karshipta.Executor.Dispatch.{dispatch}

-- `busy` is the command that the worker took and has not answered; `ended` says that `run` returned.
pub record Executor (W D F : Type 0) : Type 0 where
  pub queue : List (Command D F)
  pub busy : Option (Command D F)
  pub stop_requested : Bool
  pub ended : Bool
  pub world : W

-- An ack, by the thread that calls `on_ack`.
pub data Sent : Type 0 where
  from_caller from_worker : CommandAck → Sent

unfoldable pub ack : {D F : Type 0} → Command D F → CommandStatus → Text → CommandAck
ack command status message = record {
  command_id = command.command_id;
  ward_id = command.ward_id;
  status = status;
  message = message;
}

unfoldable pub has_action : {D F : Type 0} → CommandAction D F → Bool
has_action action_not_set = false
has_action action = true

unfoldable pub reject_leftovers : {D F : Type 0} → List (Command D F) → List Sent
unfolding ack
reject_leftovers [] = []
reject_leftovers (command ∷ commands) =
    from_worker (ack command rejected (text "gateway shutting down")) ∷ reject_leftovers commands

-- What happens to an executor: a command arrives, the stop is requested, the worker takes its next
-- step, or the vehicle and the clock move on.
pub data Event (W D F : Type 0) : Type 0 where
  enqueues : Command D F → Event W D F
  requests_stop turn : Event W D F
  elapses : W → Event W D F

module _ {W D F : Type 0} (vehicle : Vehicle W D F) (float : Float F) where
  unfoldable pub enqueue : Command D F → Executor W D F → Executor W D F × List Sent
  unfolding ack has_action
  enqueue command s =
      if has_action command.action
      then (
        record s { queue = s.queue ++ command ∷ [] },
        from_caller (ack command accepted (text "queued")) ∷ [],
      )
      else (s, from_caller (ack command rejected (text "command has no action")) ∷ [])

  unfoldable pub execute : Command D F → Executor W D F → Executor W D F × List Sent
  unfolding ack
  execute command s =
      let ran = dispatch vehicle float command s.world in
      (
        record s { busy = none; world = ran.world },
        from_worker (ack command (if ran.value.0 then success else rejected) ran.value.1) ∷ [],
      )

  -- With nothing at hand, the worker waits, takes the next command, or ends.
  unfoldable pub take_next : Executor W D F → List (Command D F) → Executor W D F × List Sent
  take_next s [] = if s.stop_requested then (record s { ended = true }, []) else (s, [])
  take_next s (command ∷ commands) =
      if s.stop_requested
      then (record s { queue = []; ended = true }, reject_leftovers (command ∷ commands))
      else (record s { queue = commands; busy = some command }, [])

  unfoldable pub work : Executor W D F → Executor W D F × List Sent
  unfolding execute take_next
  work s =
      if s.ended
      then (s, [])
      else elim s.busy [ some command ↦ execute command s | none ↦ take_next s s.queue ]

  unfoldable pub step : Event W D F → Executor W D F → Executor W D F × List Sent
  unfolding enqueue work
  step (enqueues command) s = enqueue command s
  step requests_stop s = (record s { stop_requested = true }, [])
  step turn s = work s
  step (elapses w) s = (record s { world = w }, [])

  unfoldable pub run : List (Event W D F) → Executor W D F → Executor W D F × List Sent
  run [] s = (s, [])
  run (event ∷ events) s =
      let now = step event s in let later = run events now.0 in (later.0, now.1 ++ later.1)
