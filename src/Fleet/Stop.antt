-- ===== src/Fleet/Stop.antt =====
-- fleet_manager.cpp, the request that stops a fleet mission.
use karshipta.Fleet.Outcomes.{handle_outcomes}
use karshipta.Fleet.Missions.{
  broadcast_updated, on_store, get_mission, FleetState, is_stopping, maybe_finalize_stop,
  is_settled,
}
use karshipta.Fleet.Dispatch.{internal_error, fleet_mission_ack, Environment}
use karshipta.Common.{
  ℕ, ◌+◌, Bool, not, ◌&&◌, List, [], ◌∷◌, ◌++◌, Option, none, some, ltb, if◌then◌else◌, Text, text,
  insert,
}
use karshipta.Messages.{rtl, land, pause_mission, CommandAction}
use karshipta.Fleet.Messages.{
  stop_land, stop_hold, stopping, mission_stopping, WardMissionState, FleetMission, StopAction,
  stop_unspecified, stop_rtl, StopFleetMission, ack_accepted, ack_rejected, FleetMissionAck,
}
use karshipta.Fleet.Effects.{Result, ok, ◌>>=◌, ◌>>◌, pure, try_catch}
use karshipta.Fleet.MissionStore.{MissionStore}

-- The stop command goes to a ward that is not settled and not stopping.
unfoldable pub is_stoppable : WardMissionState → Bool
unfolding is_settled is_stopping
is_stoppable state = not (is_settled state.status) && not (is_stopping state.status)

unfoldable pub effective_action : StopAction → StopAction
effective_action stop_unspecified = stop_rtl
effective_action action = action

-- `zero` is the altitude of a return to launch that keeps the autopilot's own.
unfoldable pub stop_command : {D F : Type 0} → F → StopAction → CommandAction D F
stop_command zero stop_hold = pause_mission
stop_command zero stop_land = land
stop_command zero stop_rtl = rtl zero
stop_command zero stop_unspecified = rtl zero

module _ {S V D F : Type 0} (store : MissionStore S D F) (env : Environment V D F) where
  unfoldable pub synthesize_stop_command_id : Text → Text → FleetState S V D F → Text
  synthesize_stop_command_id id ward_id s =
      text "fleet-mission-stop-"
      ++ id
      ++ text "-"
      ++ ward_id
      ++ text "-"
      ++ env.wards.now_ns s.wards

  unfoldable pub stopping_state : WardMissionState → WardMissionState
  stopping_state state = record {
    ward_id = state.ward_id;
    status = stopping;
    message = [];
    mission_id = state.mission_id;
  }

  -- The entry of `pending_stops_`, the command, and the outcomes that it has at once.
  unfoldable pub send_stop :
      Text → StopAction → WardMissionState → Text → FleetState S V D F → FleetState S V D F
  unfolding stop_command
  send_stop id action state command_id s =
      let registered : FleetState S V D F = record s {
        pending_stops =
            insert command_id (record { fleet_mission_id = id; ward_id = state.ward_id })
              s.pending_stops;
      } in
      let answer =
        env.wards.dispatch_command
          (record {
            command_id = command_id;
            ward_id = state.ward_id;
            timestamp_ms = env.wards.now_ms s.wards;
            action = stop_command env.zero action;
          })
          s.wards in
      handle_outcomes store answer.0 (record registered { wards = answer.1 })

  unfoldable pub stop_ward :
      Text
      → StopAction
      → WardMissionState
      → FleetState S V D F
      → Result (Unit {0}) × FleetState S V D F
  unfolding synthesize_stop_command_id stopping_state send_stop
  stop_ward id action state s =
      let command_id = synthesize_stop_command_id id state.ward_id s in
      (on_store store (store.update_ward_state id (stopping_state state)) >>= λ updated s'.
      (ok tt, send_stop id action state command_id s'))
        s

  -- The loop over the wards; gives the number of commands.
  unfoldable pub stop_wards :
      Text
      → StopAction
      → List WardMissionState
      → ℕ
      → FleetState S V D F
      → Result ℕ × FleetState S V D F
  unfolding stop_ward is_stoppable
  stop_wards id action [] dispatched = pure dispatched
  stop_wards id action (state ∷ states) dispatched =
      if is_stoppable state
      then stop_ward id action state >> stop_wards id action states (dispatched + 1)
      else stop_wards id action states dispatched

  -- The mission's own status, where a command was sent.
  unfoldable pub mark_stopping :
      Text → ℕ → FleetState S V D F → Result (Unit {0}) × FleetState S V D F
  unfolding maybe_finalize_stop
  mark_stopping id dispatched =
      if ltb 0 dispatched
      then (on_store store (store.set_status id mission_stopping) >> maybe_finalize_stop store id)
      else pure tt

  unfoldable pub stop_mission :
      StopFleetMission
      → Option (FleetMission D F)
      → FleetState S V D F
      → Result FleetMissionAck × FleetState S V D F
  unfolding stop_wards fleet_mission_ack effective_action mark_stopping
  stop_mission request none = pure (
      fleet_mission_ack request.request_id request.fleet_mission_id ack_rejected
        (text "unknown fleet_mission_id: " ++ request.fleet_mission_id))
  stop_mission request (some mission) = do
    dispatched ←
        stop_wards request.fleet_mission_id (effective_action request.action) mission.ward_states 0
    mark_stopping request.fleet_mission_id dispatched
    broadcast_updated store request.fleet_mission_id
    pure (
        fleet_mission_ack request.request_id request.fleet_mission_id ack_accepted (
          if ltb 0 dispatched
          then text "stop dispatched to " ++ env.to_string dispatched ++ text " ward(s)"
          else text "no active wards to stop"))

  unfoldable pub handle_stop_fleet_mission :
      StopFleetMission → FleetState S V D F → FleetMissionAck × FleetState S V D F
  unfolding stop_mission internal_error
  handle_stop_fleet_mission request =
      try_catch
        (do mission ← get_mission store request.fleet_mission_id; stop_mission request mission)
        (internal_error request.request_id request.fleet_mission_id)
