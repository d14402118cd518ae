-- ===== src/Registry/Snapshot.antt =====
-- fleet_manager.cpp, what a client is sent that connects.
use karshipta.Fleet.Messages.{FleetMission}
use karshipta.Fleet.MissionStore.{MissionStore}
use karshipta.Registry.Types.{
  sends_fleet_mission, sends_fleet, sends_zone, FleetZoneStore, Broadcast, Fleet, Zone,
}
use karshipta.Common.{◌++◌, [], ◌∷◌, List}
use karshipta.Fleet.Effects.{Result, ok, threw}

unfoldable pub fleet_messages : {G D F : Type 0} → List Fleet → List (Broadcast G D F)
fleet_messages [] = []
fleet_messages (fleet ∷ fleets) = sends_fleet fleet ∷ fleet_messages fleets

unfoldable pub zone_messages : {G D F : Type 0} → List (Zone G F) → List (Broadcast G D F)
zone_messages [] = []
zone_messages (zone ∷ zones) = sends_zone zone ∷ zone_messages zones

unfoldable pub mission_messages :
    {G D F : Type 0} → List (FleetMission D F) → List (Broadcast G D F)
mission_messages [] = []
mission_messages (mission ∷ missions) = sends_fleet_mission mission ∷ mission_messages missions

-- A list that throws ends the snapshot.
unfoldable pub messages_of :
    {G D F A : Type 0} → (A → List (Broadcast G D F)) → Result A → List (Broadcast G D F)
messages_of messages (ok a) = messages a
messages_of messages (threw error) = []

module _ {T G D F : Type 0} (store : FleetZoneStore T G F) where
  -- The zones, once the fleets are listed; with the state of the store.
  unfoldable pub zones_after : Result (List Fleet) × T → List (Broadcast G D F) × T
  unfolding fleet_messages zone_messages messages_of
  zones_after (threw error, t) = ([], t)
  zones_after (ok fleets, t) =
      let zones = store.list_zones t in
      (fleet_messages fleets ++ messages_of zone_messages zones.0, zones.1)

  -- The messages to the client, in order.
  unfoldable pub send_fleet_zone_snapshot : T → List (Broadcast G D F) × T
  unfolding zones_after
  send_fleet_zone_snapshot t = zones_after (store.list_fleets t)

unfoldable pub send_fleet_mission_snapshot :
    {S G D F : Type 0} → MissionStore S D F → S → List (Broadcast G D F) × S
unfolding mission_messages messages_of
send_fleet_mission_snapshot store s =
    let missions = store.list_fleet_missions s in
    (messages_of mission_messages missions.0, missions.1)
