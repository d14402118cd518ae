-- ===== src/Registry/Types.antt =====
-- The messages of proto/karshipta/v1/fleet.proto about fleets and zones, the store that keeps them, and
-- what the gateway broadcasts. `G` stands for the points of a zone, `F` for floats.
use karshipta.Fleet.Effects.{Result}
use karshipta.Fleet.Messages.{FleetMissionAck, AckStatus, FleetMission}
use karshipta.Common.{[], ◌∷◌, ◌++◌, List, Text, Option}

pub record Fleet : Type 0 where
  pub fleet_id : Text
  pub name : Text
  pub description : Text
  pub ward_ids : List Text

pub record CreateFleet : Type 0 where
  pub request_id : Text
  pub name : Text
  pub description : Text

pub record RenameFleet : Type 0 where
  pub request_id : Text
  pub fleet_id : Text
  pub name : Text
  pub description : Text

pub record DeleteFleet : Type 0 where
  pub request_id : Text
  pub fleet_id : Text

pub record AddWardToFleet : Type 0 where
  pub request_id : Text
  pub fleet_id : Text
  pub ward_id : Text

pub record RemoveWardFromFleet : Type 0 where
  pub request_id : Text
  pub fleet_id : Text
  pub ward_id : Text

pub record FleetAck : Type 0 where
  pub request_id : Text
  pub status : AckStatus
  pub message : Text
  pub fleet_id : Text

pub data ZoneType : Type 0 where
  zone_unspecified keep_in keep_out : ZoneType

pub record Zone (G F : Type 0) : Type 0 where
  pub zone_id : Text
  pub name : Text
  pub zone_type : ZoneType
  pub vertices : List G
  pub altitude_min_m : Option F
  pub altitude_max_m : Option F

pub record CreateZone (G F : Type 0) : Type 0 where
  pub request_id : Text
  pub name : Text
  pub zone_type : ZoneType
  pub vertices : List G
  pub altitude_min_m : Option F
  pub altitude_max_m : Option F

pub record UpdateZone (F : Type 0) : Type 0 where
  pub request_id : Text
  pub zone_id : Text
  pub name : Text
  pub zone_type : ZoneType
  pub altitude_min_m : Option F
  pub altitude_max_m : Option F

pub record DeleteZone : Type 0 where
  pub request_id : Text
  pub zone_id : Text

pub record ZoneAck : Type 0 where
  pub request_id : Text
  pub status : AckStatus
  pub message : Text
  pub zone_id : Text

-- The payloads that the fleet manager and its callers broadcast.
pub data Broadcast (G D F : Type 0) : Type 0 where
  sends_fleet : Fleet → Broadcast G D F
  sends_zone : Zone G F → Broadcast G D F
  sends_fleet_mission : FleetMission D F → Broadcast G D F
  sends_fleet_ack : FleetAck → Broadcast G D F
  sends_zone_ack : ZoneAck → Broadcast G D F
  sends_fleet_mission_ack : FleetMissionAck → Broadcast G D F

-- The operations may throw. Those that return an `Option Text` report an unknown id by it.
pub record FleetZoneStore (T G F : Type 0) : Type 0 where
  pub create_fleet : Text → Text → T → Result Text × T
  pub rename_fleet : Text → Text → Text → T → Result (Option Text) × T
  pub delete_fleet : Text → T → Result (Option Text) × T
  pub add_ward_to_fleet : Text → Text → T → Result (Option Text) × T
  pub remove_ward_from_fleet : Text → Text → T → Result (Option Text) × T
  pub list_fleets : T → Result (List Fleet) × T
  pub create_zone : Text → ZoneType → List G → Option F → Option F → T → Result Text × T
  pub update_zone : Text → Text → ZoneType → Option F → Option F → T → Result (Option Text) × T
  pub delete_zone : Text → T → Result (Option Text) × T
  pub list_zones : T → Result (List (Zone G F)) × T

pub record Registry (T G D F : Type 0) : Type 0 where
  pub store : T
  pub sent : List (Broadcast G D F)

module _ {T G D F : Type 0} where
  abbrev pub on_registry :
      {A : Type 0} → (T → Result A × T) → Registry T G D F → Result A × Registry T G D F
  on_registry op r = let answer = op r.store in (answer.0, record r { store = answer.1 })

  abbrev pub send_out : Broadcast G D F → Registry T G D F → Registry T G D F
  send_out message r = record r { sent = r.sent ++ message ∷ [] }
