-- ===== src/Fleet/Create.antt =====
-- fleet_manager.cpp, the request that creates a fleet mission.
use karshipta.Fleet.Missions.{broadcast_updated, on_store, FleetState}
use karshipta.Fleet.Dispatch.{
  is_nil, internal_error, fleet_mission_ack, dispatch_plans, Environment,
}
use karshipta.Common.{Bool, true, not, [], ◌++◌, if◌then◌else◌, Text, text, is_empty}
use karshipta.Fleet.Messages.{CreateFleetMission, ack_accepted, ack_rejected, FleetMissionAck}
use karshipta.Fleet.Effects.{Result, ok, ◌>>=◌, ◌>>◌, pure, try_catch}
use karshipta.Fleet.MissionStore.{MissionStore}

-- An exception where the ack already carries the id of the mission.
abbrev pub within : {W A : Type 0} → (W → Result A × W) → (Text → A) → W → Result A × W
within m handler w = let done = try_catch m handler w in (ok done.0, done.1)

module _ {S V D F : Type 0} (store : MissionStore S D F) (env : Environment V D F) where
  -- The request past its checks.
  unfoldable pub store_and_dispatch :
      CreateFleetMission D F → FleetState S V D F → Result FleetMissionAck × FleetState S V D F
  unfolding dispatch_plans fleet_mission_ack internal_error
  store_and_dispatch request = do
    id ← on_store store (
        store.create_fleet_mission request.fleet_id request.mission_name request.repeat_count
          request.ward_plans)
    dispatch_plans store env id request.mission_name request.repeat_count request.ward_plans
    within
        (do
          broadcast_updated store id
          pure
              (fleet_mission_ack request.request_id id ack_accepted (text "fleet mission created")))
        (internal_error request.request_id id)

  unfoldable pub create_known :
      CreateFleetMission D F
      → Bool
      → FleetState S V D F
      → Result FleetMissionAck × FleetState S V D F
  unfolding store_and_dispatch fleet_mission_ack is_nil
  create_known request known =
      if not known
      then pure (
          fleet_mission_ack request.request_id [] ack_rejected
            (text "unknown fleet_id: " ++ request.fleet_id))
      else if is_nil request.ward_plans
      then pure
          (fleet_mission_ack request.request_id [] ack_rejected (text "no ward plans in request"))
      else store_and_dispatch request

  -- `known_fleet` is what `find_fleet` says, which may throw.
  unfoldable pub check_fleet :
      (Text → S → Result Bool × S) → Text → FleetState S V D F → Result Bool × FleetState S V D F
  check_fleet known_fleet fleet_id =
      if is_empty fleet_id then pure true else on_store store (known_fleet fleet_id)

  unfoldable pub handle_create_fleet_mission :
      (Text → S → Result Bool × S)
      → CreateFleetMission D F
      → FleetState S V D F
      → FleetMissionAck × FleetState S V D F
  unfolding create_known check_fleet internal_error
  handle_create_fleet_mission known_fleet request =
      try_catch (do known ← check_fleet known_fleet request.fleet_id; create_known request known)
        (internal_error request.request_id [])
