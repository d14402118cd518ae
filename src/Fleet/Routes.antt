-- ===== src/Fleet/Routes.antt =====
-- fleet_manager.cpp, the requests that change the routes of a fleet mission or remove it.
use karshipta.Fleet.Missions.{
  broadcast_updated, get_mission, on_store, FleetState, every_ward_settled,
}
use karshipta.Fleet.Dispatch.{
  dispatch_plans, is_nil, fleet_mission_ack, internal_error, Environment,
}
use karshipta.Common.{not, ◌++◌, Option, none, some, if◌then◌else◌, Text, text}
use karshipta.Fleet.Messages.{
  FleetMission, RemoveFleetMission, UpdateFleetMissionRoutes, ack_accepted, ack_rejected,
  FleetMissionAck,
}
use karshipta.Fleet.Effects.{Result, ◌>>=◌, ◌>>◌, pure, try_catch}
use karshipta.Fleet.MissionStore.{MissionStore}

module _ {S V D F : Type 0} (store : MissionStore S D F) (env : Environment V D F) where
  -- Once the plans are stored.
  unfoldable pub new_routes :
      UpdateFleetMissionRoutes D F
      → Option Text
      → FleetState S V D F
      → Result FleetMissionAck × FleetState S V D F
  unfolding fleet_mission_ack dispatch_plans
  new_routes request (some message) =
      pure (fleet_mission_ack request.request_id request.fleet_mission_id ack_rejected message)
  new_routes request none = do
    dispatch_plans store env request.fleet_mission_id request.mission_name request.repeat_count
        request.ward_plans
    broadcast_updated store request.fleet_mission_id
    pure (
        fleet_mission_ack request.request_id request.fleet_mission_id ack_accepted
          (text "fleet mission updated"))

  unfoldable pub update_routes :
      UpdateFleetMissionRoutes D F
      → Option (FleetMission D F)
      → FleetState S V D F
      → Result FleetMissionAck × FleetState S V D F
  unfolding every_ward_settled fleet_mission_ack is_nil new_routes
  update_routes request none = pure (
      fleet_mission_ack request.request_id request.fleet_mission_id ack_rejected
        (text "unknown fleet_mission_id: " ++ request.fleet_mission_id))
  update_routes request (some mission) =
      if not (every_ward_settled mission.ward_states)
      then pure (
          fleet_mission_ack request.request_id request.fleet_mission_id ack_rejected
            (text "cannot edit while any ward is still active; stop it first"))
      else if is_nil request.ward_plans
      then pure (
          fleet_mission_ack request.request_id request.fleet_mission_id ack_rejected
            (text "no ward plans in request"))
      else do
        error ← on_store store (
            store.update_ward_plans request.fleet_mission_id request.mission_name
              request.repeat_count request.ward_plans)
        new_routes request error

  unfoldable pub handle_update_fleet_mission_routes :
      UpdateFleetMissionRoutes D F → FleetState S V D F → FleetMissionAck × FleetState S V D F
  unfolding update_routes internal_error
  handle_update_fleet_mission_routes request =
      try_catch
        (do mission ← get_mission store request.fleet_mission_id; update_routes request mission)
        (internal_error request.request_id request.fleet_mission_id)

module _ {S V D F : Type 0} (store : MissionStore S D F) where
  unfoldable pub remove_mission :
      RemoveFleetMission
      → Option (FleetMission D F)
      → FleetState S V D F
      → Result FleetMissionAck × FleetState S V D F
  unfolding every_ward_settled fleet_mission_ack
  remove_mission request none = pure (
      fleet_mission_ack request.request_id request.fleet_mission_id ack_rejected
        (text "unknown fleet_mission_id: " ++ request.fleet_mission_id))
  remove_mission request (some mission) =
      if not (every_ward_settled mission.ward_states)
      then pure (
          fleet_mission_ack request.request_id request.fleet_mission_id ack_rejected
            (text "cannot remove while any ward is still active; stop it first"))
      else do
        error ← on_store store (store.delete_fleet_mission request.fleet_mission_id)
        pure (elim error [
          | some message ↦
              fleet_mission_ack request.request_id request.fleet_mission_id ack_rejected message
          | none ↦
              fleet_mission_ack request.request_id request.fleet_mission_id ack_accepted
                (text "fleet mission removed")
        ])

  unfoldable pub handle_remove_fleet_mission :
      RemoveFleetMission → FleetState S V D F → FleetMissionAck × FleetState S V D F
  unfolding remove_mission internal_error
  handle_remove_fleet_mission request =
      try_catch
        (do mission ← get_mission store request.fleet_mission_id; remove_mission request mission)
        (internal_error request.request_id request.fleet_mission_id)
