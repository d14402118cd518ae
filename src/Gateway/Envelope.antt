-- ===== src/Gateway/Envelope.antt =====
-- The payloads of a client's envelope, and the state that the main program's handlers share. `P` stands
-- for the payloads that go to the ward manager.
use karshipta.Fleet.Messages.{
  UpdateFleetMissionRoutes, RemoveFleetMission, StopFleetMission, CreateFleetMission,
}
use karshipta.Registry.Types.{
  DeleteZone, UpdateZone, CreateZone, RemoveWardFromFleet, AddWardToFleet, DeleteFleet, Registry,
  Zone, RenameFleet, CreateFleet,
}
use karshipta.Fleet.Missions.{FleetState}
use karshipta.Messages.{CommandAck}
use karshipta.Common.{false, true, ℕ, Bool, List, Option}

pub data ClientEnvelope (G D F P : Type 0) : Type 0 where
  create_fleet : CreateFleet → ClientEnvelope G D F P
  rename_fleet : RenameFleet → ClientEnvelope G D F P
  delete_fleet : DeleteFleet → ClientEnvelope G D F P
  add_ward_to_fleet : AddWardToFleet → ClientEnvelope G D F P
  remove_ward_from_fleet : RemoveWardFromFleet → ClientEnvelope G D F P
  create_zone : CreateZone G F → ClientEnvelope G D F P
  update_zone : UpdateZone F → ClientEnvelope G D F P
  delete_zone : DeleteZone → ClientEnvelope G D F P
  create_fleet_mission : CreateFleetMission D F → ClientEnvelope G D F P
  stop_fleet_mission : StopFleetMission → ClientEnvelope G D F P
  remove_fleet_mission : RemoveFleetMission → ClientEnvelope G D F P
  update_fleet_mission_routes : UpdateFleetMissionRoutes D F → ClientEnvelope G D F P
  ward_payload : P → ClientEnvelope G D F P

unfoldable pub is_fleet_payload : {G D F P : Type 0} → ClientEnvelope G D F P → Bool
is_fleet_payload (create_fleet request) = true
is_fleet_payload (rename_fleet request) = true
is_fleet_payload (delete_fleet request) = true
is_fleet_payload (add_ward_to_fleet request) = true
is_fleet_payload (remove_ward_from_fleet request) = true
is_fleet_payload (create_zone request) = true
is_fleet_payload (update_zone request) = true
is_fleet_payload (delete_zone request) = true
is_fleet_payload (create_fleet_mission request) = true
is_fleet_payload (stop_fleet_mission request) = true
is_fleet_payload (remove_fleet_mission request) = true
is_fleet_payload (update_fleet_mission_routes request) = true
is_fleet_payload (ward_payload payload) = false

-- `missions` and `registry` are the two stores of the fleet manager with what surrounds them;
-- `missions.broadcasts` is empty between two steps.
pub record GatewayState (S T V G D F : Type 0) : Type 0 where
  pub missions : FleetState S V D F
  pub registry : Registry T G D F
  pub disconnected : List ℕ

-- What the main program uses of code that is elsewhere: the parser of protocol buffers, the transport's
-- roles, and the ward manager. The two calls on a payload also give the acks that the ward manager tells
-- its observer before it returns, which is the fleet manager.
pub record Surroundings (V G D F P : Type 0) : Type 0 where
  pub decode : List ℕ → Option (ClientEnvelope G D F P)
  pub is_viewer : ℕ → Bool
  pub reject_viewer_payload : ℕ → P → V → List CommandAck × V
  pub serve_payload : ℕ → P → V → List CommandAck × V
  pub push_geofence : List (Zone G F) → V → V
