-- ===== src/Gateway/Receive.antt =====
-- main.cpp, what on_receive does with the bytes of a client.
use karshipta.Registry.Snapshot.{mission_messages}
use karshipta.Gateway.Envelope.{
  is_fleet_payload, ClientEnvelope, GatewayState, Surroundings, create_fleet, rename_fleet,
  delete_fleet, add_ward_to_fleet, remove_ward_from_fleet, create_zone, update_zone, delete_zone,
  create_fleet_mission, stop_fleet_mission, remove_fleet_mission, update_fleet_mission_routes,
  ward_payload,
}
use karshipta.Fleet.Routes.{handle_update_fleet_mission_routes, handle_remove_fleet_mission}
use karshipta.Fleet.Stop.{handle_stop_fleet_mission}
use karshipta.Registry.Zones.{handle_delete_zone, handle_update_zone, handle_create_zone}
use karshipta.Fleet.Missions.{FleetState}
use karshipta.Fleet.Outcomes.{handle_outcomes}
use karshipta.Messages.{CommandAck}
use karshipta.Fleet.Create.{handle_create_fleet_mission}
use karshipta.Registry.Fleets.{
  handle_remove_ward_from_fleet, handle_add_ward_to_fleet, handle_delete_fleet, handle_rename_fleet,
  handle_create_fleet, find_fleet,
}
use karshipta.Gateway.Viewer.{reject_viewer_envelope}
use karshipta.Fleet.Dispatch.{Environment}
use karshipta.Registry.Types.{
  sends_fleet_ack, sends_zone_ack, sends_fleet_mission_ack, send_out, on_registry, Registry,
  FleetAck, ZoneAck, Zone, Fleet, FleetZoneStore,
}
use karshipta.Fleet.MissionStore.{MissionStore}
use karshipta.Fleet.Messages.{
  CreateFleetMission, ack_rejected, FleetMissionAck, ack_accepted, AckStatus,
}
use karshipta.Fleet.Effects.{Result, ok, threw}
use karshipta.Common.{
  is_empty, length, ◌++◌, ltb, none, if◌then◌else◌, some, [], false, true, ◌∷◌, Bool, ℕ, List,
  Option,
}

unfoldable pub max_envelope_bytes : ℕ
max_envelope_bytes = 1048576

unfoldable pub is_accepted : AckStatus → Bool
is_accepted ack_accepted = true
is_accepted ack_rejected = false

module _ {S T V G D F P : Type 0} (missions : MissionStore S D F) (registry : FleetZoneStore T G F)
    (env : Environment V D F) (around : Surroundings V G D F P) where
  unfoldable pub fleet_acked :
      FleetAck × Registry T G D F → GatewayState S T V G D F → GatewayState S T V G D F
  fleet_acked answer g = record g { registry = send_out (sends_fleet_ack answer.0) answer.1 }

  unfoldable pub geofence_listed :
      Result (List (Zone G F)) × Registry T G D F
      → GatewayState S T V G D F
      → Result (Unit {0}) × GatewayState S T V G D F
  geofence_listed (ok zones, r) g = (
    ok tt,
    record g {
      registry = r;
      missions = record g.missions { wards = around.push_geofence zones g.missions.wards };
    },
  )
  geofence_listed (threw error, r) g = (threw error, record g { registry = r })

  -- An exception of the store leaves the main program's handler.
  unfoldable pub push_geofence_to_all_wards :
      GatewayState S T V G D F → Result (Unit {0}) × GatewayState S T V G D F
  unfolding geofence_listed
  push_geofence_to_all_wards g =
      geofence_listed (on_registry {T = T} registry.list_zones g.registry) g

  unfoldable pub zone_acked :
      ZoneAck × Registry T G D F
      → GatewayState S T V G D F
      → Result (Unit {0}) × GatewayState S T V G D F
  unfolding push_geofence_to_all_wards is_accepted
  zone_acked answer g =
      let told : GatewayState S T V G D F = record g {
        registry = send_out (sends_zone_ack answer.0) answer.1;
      } in
      if is_accepted answer.0.status then push_geofence_to_all_wards told else (ok tt, told)

  -- What the handler broadcast, then the ack.
  unfoldable pub mission_acked :
      FleetMissionAck × FleetState S V D F → GatewayState S T V G D F → GatewayState S T V G D F
  unfolding mission_messages
  mission_acked answer g = record g {
    missions = record answer.1 { broadcasts = [] };
    registry = record g.registry {
      sent =
          g.registry.sent
          ++ mission_messages answer.1.broadcasts
          ++ sends_fleet_mission_ack answer.0 ∷ [];
    };
  }

  -- The ward manager's answer to a payload; the outcomes of commands go to the fleet manager at once,
  -- which may broadcast missions.
  unfoldable pub wards_answered :
      List CommandAck × V → GatewayState S T V G D F → GatewayState S T V G D F
  unfolding handle_outcomes mission_messages
  wards_answered answer g =
      let told =
        handle_outcomes missions answer.0
          (record g.missions { wards = answer.1; broadcasts = [] }) in
      record g {
        missions = record told { broadcasts = g.missions.broadcasts };
        registry = record g.registry { sent = g.registry.sent ++ mission_messages told.broadcasts };
      }

  unfoldable pub is_known : Result (Option Fleet) → Result Bool
  is_known (ok none) = ok false
  is_known (ok (some fleet)) = ok true
  is_known (threw error) = threw error

  -- The fleet is looked up in the other store, before the missions are touched.
  unfoldable pub serve_create_fleet_mission :
      CreateFleetMission D F → GatewayState S T V G D F → GatewayState S T V G D F
  unfolding mission_acked is_known find_fleet handle_create_fleet_mission
  serve_create_fleet_mission request g =
      if is_empty request.fleet_id
      then mission_acked
          (handle_create_fleet_mission missions env (λ id s. (ok true, s)) request g.missions) g
      else let found = find_fleet {T = T} {D = D} registry request.fleet_id g.registry in
        mission_acked
          (handle_create_fleet_mission missions env (λ id s. (is_known found.0, s)) request
            g.missions)
          (record g { registry = found.1 })

  -- The switch over an operator's payload.
  unfoldable pub serve_envelope :
      ℕ
      → ClientEnvelope G D F P
      → GatewayState S T V G D F
      → Result (Unit {0}) × GatewayState S T V G D F
  unfolding wards_answered fleet_acked zone_acked mission_acked serve_create_fleet_mission
      handle_create_fleet handle_rename_fleet handle_delete_fleet handle_add_ward_to_fleet
      handle_remove_ward_from_fleet handle_create_zone handle_update_zone handle_delete_zone
      handle_stop_fleet_mission handle_remove_fleet_mission handle_update_fleet_mission_routes
  serve_envelope client (create_fleet request) g =
      (ok tt, fleet_acked (handle_create_fleet registry request g.registry) g)
  serve_envelope client (rename_fleet request) g =
      (ok tt, fleet_acked (handle_rename_fleet registry request g.registry) g)
  serve_envelope client (delete_fleet request) g =
      (ok tt, fleet_acked (handle_delete_fleet registry request g.registry) g)
  serve_envelope client (add_ward_to_fleet request) g =
      (ok tt, fleet_acked (handle_add_ward_to_fleet registry request g.registry) g)
  serve_envelope client (remove_ward_from_fleet request) g =
      (ok tt, fleet_acked (handle_remove_ward_from_fleet registry request g.registry) g)
  serve_envelope client (create_zone request) g =
      zone_acked (handle_create_zone registry request g.registry) g
  serve_envelope client (update_zone request) g =
      zone_acked (handle_update_zone registry request g.registry) g
  serve_envelope client (delete_zone request) g =
      zone_acked (handle_delete_zone registry request g.registry) g
  serve_envelope client (create_fleet_mission request) g =
      (ok tt, serve_create_fleet_mission request g)
  serve_envelope client (stop_fleet_mission request) g =
      (ok tt, mission_acked (handle_stop_fleet_mission missions env request g.missions) g)
  serve_envelope client (remove_fleet_mission request) g =
      (ok tt, mission_acked (handle_remove_fleet_mission missions request g.missions) g)
  serve_envelope client (update_fleet_mission_routes request) g =
      (ok tt, mission_acked (handle_update_fleet_mission_routes missions env request g.missions) g)
  serve_envelope client (ward_payload payload) g =
      (ok tt, wards_answered (around.serve_payload client payload g.missions.wards) g)

  -- What the ward manager does with a viewer's payload; those of the fleets do not get there.
  unfoldable pub reject_by_wards :
      ℕ → ClientEnvelope G D F P → GatewayState S T V G D F → GatewayState S T V G D F
  unfolding wards_answered
  reject_by_wards client (ward_payload payload) g =
      wards_answered (around.reject_viewer_payload client payload g.missions.wards) g
  reject_by_wards client envelope g = g

  -- A viewer's payload goes to the manager that rejects it.
  unfoldable pub reject_payload :
      ℕ → ClientEnvelope G D F P → GatewayState S T V G D F → GatewayState S T V G D F
  unfolding reject_viewer_envelope reject_by_wards is_fleet_payload
  reject_payload client envelope g =
      if is_fleet_payload envelope
      then record g { registry = reject_viewer_envelope envelope g.registry }
      else reject_by_wards client envelope g

  unfoldable pub receive_envelope :
      ℕ
      → Option (ClientEnvelope G D F P)
      → GatewayState S T V G D F
      → Result (Unit {0}) × GatewayState S T V G D F
  unfolding serve_envelope reject_payload
  receive_envelope client none g = (ok tt, g)
  receive_envelope client (some envelope) g =
      if around.is_viewer client
      then (ok tt, reject_payload client envelope g)
      else serve_envelope client envelope g

  unfoldable pub receive_bytes :
      ℕ → List ℕ → GatewayState S T V G D F → Result (Unit {0}) × GatewayState S T V G D F
  unfolding receive_envelope max_envelope_bytes
  receive_bytes client bytes g =
      if ltb max_envelope_bytes (length bytes)
      then (ok tt, record g { disconnected = g.disconnected ++ client ∷ [] })
      else receive_envelope client (around.decode bytes) g
