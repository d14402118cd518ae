-- ===== src/Executor/Tests.antt =====
-- A small vehicle and the commands on it, and the theorems at inputs that meet their hypotheses.
use karshipta.Common.{
  ℕ, ◌+◌, ◌-◌, ◌<◌, ◌≡◌, ◌≢◌, refl, ◌⊎◌, ◌↔◌, true, false, List, [], ◌∷◌, ◌++◌, none, ltb, leb,
  ◌==◌, text,
}
use karshipta.Messages.{Command, arm, rtl, action_not_set}
use karshipta.Executor.Vehicle.{
  call_set_return_to_launch_altitude, succeeded, failed, Vehicle, Float,
}
use karshipta.Executor.Dispatch.{dispatch, is_authority_gated}
use karshipta.Executor.Gate.{
  all_succeeded, Notices, dispatch-success, dispatch-Notices, dispatch-window,
}
use karshipta.Executor.Queue.{
  Executor, Event, enqueues, turn, elapses, requests_stop, has_action, run,
}
use karshipta.Executor.Answers.{answered, all_final, run-answers}

-- The world is the clock; the altitude for a return to launch is refused.
abbrev copter : Vehicle ℕ ℕ ℕ
copter = record {
  act = λ call now. elim call [
    | call_set_return_to_launch_altitude altitude ↦ (failed (text "denied"), now)
    | other ↦ (succeeded, now)
  ];
  await = λ call now. (none, now);
  notify_interrupted = λ now. now;
  now_ms = λ now. now;
  position = λ now. record { absolute_altitude_m = 50; relative_altitude_m = 10 };
  in_mission_mode = λ now. true;
}

abbrev naturals : Float ℕ
naturals = record {
  zero = 0;
  nan = 999;
  is_nan = λ a. a == 999;
  above = λ a b. ltb b a;
  at_most = leb;
  add = λ a b. a + b;
  subtract = λ a b. a - b;
}

abbrev arming : Command ℕ ℕ
arming = record { command_id = text "a"; ward_id = text "w"; timestamp_ms = 10000; action = arm }

abbrev returning : Command ℕ ℕ
returning = record {
  command_id = text "r";
  ward_id = text "w";
  timestamp_ms = 10000;
  action = rtl 30;
}

abbrev empty : Command ℕ ℕ
empty = record {
  command_id = text "e";
  ward_id = text "w";
  timestamp_ms = 0;
  action = action_not_set;
}

rtl_without_altitude :
    (dispatch copter naturals returning 15000).value
    ≡ (false, text "setting return to launch altitude failed: denied")
unfolding dispatch
rtl_without_altitude = refl

late_arm : (dispatch copter naturals arming 15001).calls ≡ []
unfolding dispatch
late_arm = refl

dispatch-success_example :
    ((dispatch copter naturals arming 12000).value.0 ≡ true)
    ↔ ((dispatch copter naturals arming 12000).calls ≢ [])
      × (all_succeeded (dispatch copter naturals arming 12000).calls ≡ true)
dispatch-success_example = dispatch-success copter naturals arming 12000

dispatch-Notices_example :
    Notices copter naturals true (dispatch copter naturals returning 12000).calls
dispatch-Notices_example = dispatch-Notices copter naturals returning 12000

dispatch-window_example :
    ((dispatch copter naturals arming 15001).calls ≡ [])
    ↔ ((10000 + 5000 < 15001) ⊎ (15001 + 5000 < 10000))
unfolding is_authority_gated
dispatch-window_example = dispatch-window copter naturals arming 15001 refl

abbrev morning : List (Event ℕ ℕ ℕ)
morning = enqueues arming ∷ turn ∷ enqueues empty ∷ elapses 9000 ∷ turn ∷ enqueues returning ∷ []

abbrev idle : Executor ℕ ℕ ℕ
idle = record { queue = []; busy = none; stop_requested = false; ended = false; world = 0 }

run-answers_example :
    let before = run copter naturals morning idle in
    let after = run copter naturals (requests_stop ∷ turn ∷ turn ∷ []) before.0 in
    (answered (before.1 ++ after.1) ≡ (text "a", text "w") ∷ (text "r", text "w") ∷ [])
    × (all_final (before.1 ++ after.1) ≡ true)
unfolding has_action
run-answers_example = run-answers copter naturals morning 0 refl
