-- ===== src/Fleet/Events.antt =====
-- The fleet manager's handlers as steps, taken one after another.
use karshipta.Fleet.Outcomes.{handle_mission_upload_outcome, handle_command_outcome}
use karshipta.Fleet.Routes.{handle_remove_fleet_mission, handle_update_fleet_mission_routes}
use karshipta.Fleet.Stop.{handle_stop_fleet_mission}
use karshipta.Fleet.Missions.{FleetState}
use karshipta.Fleet.Create.{handle_create_fleet_mission}
use karshipta.Fleet.Dispatch.{Environment}
use karshipta.Messages.{CommandAck}
use karshipta.Fleet.Effects.{Result}
use karshipta.Fleet.Messages.{
  RemoveFleetMission, UpdateFleetMissionRoutes, StopFleetMission, CreateFleetMission,
}
use karshipta.Fleet.MissionStore.{MissionStore}
use karshipta.Common.{[], ◌∷◌, Bool, Text, List}

-- `restarts` is a new FleetManager on the same database: the pending stops were only in memory.
pub data FleetEvent (V D F : Type 0) : Type 0 where
  creates : CreateFleetMission D F → FleetEvent V D F
  stops : StopFleetMission → FleetEvent V D F
  updates : UpdateFleetMissionRoutes D F → FleetEvent V D F
  removes : RemoveFleetMission → FleetEvent V D F
  reports_command : CommandAck → FleetEvent V D F
  reports_upload : Text → Text → Bool → Text → FleetEvent V D F
  wards_change : V → FleetEvent V D F
  restarts : FleetEvent V D F

module _ {S V D F : Type 0} (store : MissionStore S D F) (env : Environment V D F)
    (known_fleet : Text → S → Result Bool × S) where
  unfoldable pub handle_event : FleetEvent V D F → FleetState S V D F → FleetState S V D F
  unfolding handle_create_fleet_mission handle_stop_fleet_mission handle_update_fleet_mission_routes
      handle_remove_fleet_mission handle_command_outcome handle_mission_upload_outcome
  handle_event (creates request) s = (handle_create_fleet_mission store env known_fleet request s).1
  handle_event (stops request) s = (handle_stop_fleet_mission store env request s).1
  handle_event (updates request) s = (handle_update_fleet_mission_routes store env request s).1
  handle_event (removes request) s = (handle_remove_fleet_mission store request s).1
  handle_event (reports_command ack) s = handle_command_outcome store ack s
  handle_event (reports_upload ward_id mission_id succeeds message) s =
      handle_mission_upload_outcome store ward_id mission_id succeeds message s
  handle_event (wards_change wards) s = record s { wards = wards }
  handle_event restarts s = record s { pending_stops = [] }

  unfoldable pub handle_events : List (FleetEvent V D F) → FleetState S V D F → FleetState S V D F
  unfolding handle_event
  handle_events [] s = s
  handle_events (event ∷ events) s = handle_events events (handle_event event s)
