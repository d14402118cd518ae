-- ===== src/Fleet/Outcomes.antt =====
-- fleet_manager.cpp, the outcomes of commands and uploads, which the ward manager reports.
use karshipta.Fleet.Missions.{
  broadcast_updated, on_store, get_mission, FleetState, PendingStop, maybe_finalize_stop,
}
use karshipta.Common.{
  Bool, true, false, ◌&&◌, List, [], ◌∷◌, Option, none, some, if◌then◌else◌, Text, text, text_eq,
  lookup, erase,
}
use karshipta.Messages.{CommandStatus, accepted, executing, success, rejected, timeout, CommandAck}
use karshipta.Fleet.Messages.{
  WardMissionStatus, unspecified, uploading, active, stopping, stopped, WardMissionState,
  FleetMission,
}
use karshipta.Fleet.Effects.{Result, ok, ◌>>=◌, ◌>>◌, pure, try_catch}
use karshipta.Fleet.MissionStore.{MissionStore, find_ward_state}

unfoldable pub is_uploading : WardMissionStatus → Bool
is_uploading uploading = true
is_uploading unspecified = false
is_uploading active = false
is_uploading WardMissionStatus.rejected = false
is_uploading stopping = false
is_uploading stopped = false

unfoldable pub is_terminal : CommandStatus → Bool
is_terminal success = true
is_terminal rejected = true
is_terminal timeout = true
is_terminal accepted = false
is_terminal executing = false

-- The ward's state after the outcome of its stop command.
unfoldable pub settled_state : CommandStatus → Text → WardMissionState → WardMissionState
settled_state success message state = record state { status = stopped; message = [] }
settled_state rejected message state = record state { status = active; message = message }
settled_state timeout message state = record state {
  status = active;
  message = text "stop command timed out";
}
settled_state accepted message state = record state {
  status = active;
  message = text "stop command timed out";
}
settled_state executing message state = record state {
  status = active;
  message = text "stop command timed out";
}

-- `handle_mission_upload_outcome`, for a mission of the list that it is about.
unfoldable pub is_awaited :
    {D F : Type 0} → Text → Text → FleetMission D F → Option WardMissionState
unfolding is_uploading
is_awaited ward_id mission_id mission = elim (find_ward_state mission.ward_states ward_id) [
  | none ↦ none
  | some state ↦
      if text_eq state.mission_id mission_id && is_uploading state.status then some state else none
]

unfoldable pub uploaded_state : Bool → Text → WardMissionState → WardMissionState
uploaded_state succeeds message state = record state {
  status = if succeeds then active else WardMissionStatus.rejected;
  message = if succeeds then [] else message;
}

module _ {S V D F : Type 0} (store : MissionStore S D F) where
  -- `handle_command_outcome`, once the ward's state is found.
  unfoldable pub settle_ward :
      CommandAck
      → Text
      → WardMissionState
      → FleetState S V D F
      → Result (Unit {0}) × FleetState S V D F
  unfolding settled_state maybe_finalize_stop
  settle_ward ack id state = do
    on_store store (store.update_ward_state id (settled_state ack.status ack.message state))
    maybe_finalize_stop store id
    broadcast_updated store id

  unfoldable pub settle_found :
      CommandAck
      → PendingStop
      → Option WardMissionState
      → FleetState S V D F
      → Result (Unit {0}) × FleetState S V D F
  unfolding settle_ward
  settle_found ack pending none = pure tt
  settle_found ack pending (some state) = settle_ward ack pending.fleet_mission_id state

  unfoldable pub settle_in :
      CommandAck
      → PendingStop
      → Option (FleetMission D F)
      → FleetState S V D F
      → Result (Unit {0}) × FleetState S V D F
  unfolding settle_found
  settle_in ack pending none = pure tt
  settle_in ack pending (some mission) =
      settle_found ack pending (find_ward_state mission.ward_states pending.ward_id)

  unfoldable pub settle :
      CommandAck → PendingStop → FleetState S V D F → Result (Unit {0}) × FleetState S V D F
  unfolding settle_in
  settle ack pending = do
    mission ← get_mission store pending.fleet_mission_id
    settle_in ack pending mission

  unfoldable pub handle_command_outcome : CommandAck → FleetState S V D F → FleetState S V D F
  unfolding is_terminal settle
  handle_command_outcome ack s =
      if is_terminal ack.status
      then elim (lookup ack.command_id s.pending_stops) [
        | none ↦ s
        | some pending ↦
            (try_catch (settle ack pending) (λ error. tt)
              (record s { pending_stops = erase ack.command_id s.pending_stops })).1
      ]
      else s

  -- The outcomes that a command has at once.
  unfoldable pub handle_outcomes : List CommandAck → FleetState S V D F → FleetState S V D F
  handle_outcomes [] s = s
  handle_outcomes (ack ∷ acks) s = handle_outcomes acks (handle_command_outcome ack s)

  -- The mission is settled if a state is awaited; else the search goes on with `rest`.
  unfoldable pub settle_upload :
      Bool
      → Text
      → FleetMission D F
      → (FleetState S V D F → Result (Unit {0}) × FleetState S V D F)
      → Option WardMissionState
      → FleetState S V D F
      → Result (Unit {0}) × FleetState S V D F
  unfolding uploaded_state
  settle_upload succeeds message mission rest none = rest
  settle_upload succeeds message mission rest (some state) =
      on_store store
        (store.update_ward_state mission.fleet_mission_id (uploaded_state succeeds message state))
      >> broadcast_updated store mission.fleet_mission_id

  unfoldable pub upload_outcome :
      Text
      → Text
      → Bool
      → Text
      → List (FleetMission D F)
      → FleetState S V D F
      → Result (Unit {0}) × FleetState S V D F
  unfolding is_awaited settle_upload
  upload_outcome ward_id mission_id succeeds message [] s = (ok tt, s)
  upload_outcome ward_id mission_id succeeds message (mission ∷ missions) s =
      let rest = upload_outcome ward_id mission_id succeeds message missions in
      settle_upload succeeds message mission rest (is_awaited ward_id mission_id mission) s

  unfoldable pub handle_mission_upload_outcome :
      Text → Text → Bool → Text → FleetState S V D F → FleetState S V D F
  unfolding upload_outcome
  handle_mission_upload_outcome ward_id mission_id succeeds message s =
      (try_catch
        (do
          missions ← on_store store store.list_fleet_missions
          upload_outcome ward_id mission_id succeeds message missions)
        (λ error. tt) s).1
