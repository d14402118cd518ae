-- ===== src/Gateway/Tests.antt =====
-- The gateway's handler on a small request, and the theorems at inputs that meet their hypotheses.
use karshipta.Fleet.MissionStore.{find_ward_state}
use karshipta.Fleet.Outcomes.{handle_command_outcome}
use karshipta.Fleet.Dispatch.{Environment}
use karshipta.Gateway.Geofence.{ListThrows, serve_zone-Pushed, Pushed, KeepsZones}
use karshipta.Gateway.Safety.{receive_bytes-Harmless, Harmless}
use karshipta.Messages.{rejected}
use karshipta.Fleet.Messages.{WardMissionStatus, active, mission_stopped, stopped}
use karshipta.Registry.Types.{keep_in, Zone, FleetZoneStore}
use karshipta.Gateway.Receive.{serve_envelope, max_envelope_bytes, receive_bytes}
use karshipta.Fleet.Tests.{last_stop, world, env}
use karshipta.Fleet.Tests.Slots.{Slot, slots, the_id}
use karshipta.Fleet.Effects.{ok, threw}
use karshipta.Gateway.Envelope.{
  ward_payload, GatewayState, Surroundings, ClientEnvelope, remove_fleet_mission, create_zone,
}
use karshipta.Common.{
  erase, lookup, inr, inl, false, ◌⊎◌, ◌<◌, refl, ◌≡◌, if◌then◌else◌, [], text_eq, some, ◌∷◌, ◌==◌,
  none, text, ℕ, List, Option,
}

-- A store that has nothing and refuses everything.
abbrev no_zones : FleetZoneStore (Unit {0}) ℕ ℕ
no_zones = record {
  create_fleet = λ name description t. (threw (text "read only"), t);
  rename_fleet = λ id name description t. (ok (some (text "unknown")), t);
  delete_fleet = λ id t. (ok (some (text "unknown")), t);
  add_ward_to_fleet = λ id ward_id t. (ok (some (text "unknown")), t);
  remove_ward_from_fleet = λ id ward_id t. (ok (some (text "unknown")), t);
  list_fleets = λ t. (ok [], t);
  create_zone = λ name kind vertices low high t. (threw (text "read only"), t);
  update_zone = λ id name kind low high t. (ok (some (text "unknown")), t);
  delete_zone = λ id t. (ok (some (text "unknown")), t);
  list_zones = λ t. (ok [], t);
}

abbrev deletion : ClientEnvelope ℕ ℕ ℕ ℕ
deletion = remove_fleet_mission (record { request_id = text "r"; fleet_mission_id = the_id })

-- The client 7 may only read; the byte 1 is a request to remove the mission.
abbrev decode_byte : List ℕ → Option (ClientEnvelope ℕ ℕ ℕ ℕ)
decode_byte [] = none
decode_byte (byte ∷ bytes) = if byte == 1 then some deletion else none

abbrev surroundings : Surroundings (Unit {0}) ℕ ℕ ℕ ℕ
surroundings = record {
  decode = decode_byte;
  is_viewer = λ client. client == 7;
  reject_viewer_payload = λ client payload v. ([], v);
  serve_payload = λ client payload v. ([], v);
  push_geofence = λ zones v. v;
}

abbrev gateway : GatewayState Slot (Unit {0}) (Unit {0}) ℕ ℕ ℕ
gateway = record {
  missions = world stopped mission_stopped;
  registry = record { store = tt; sent = [] };
  disconnected = [];
}

-- The same request of an operator removes the mission.
operator_removes :
    (receive_bytes slots no_zones env surroundings 8 (1 ∷ []) gateway).1.missions.store ≡ none
unfolding receive_bytes max_envelope_bytes text_eq
operator_removes = refl

receive_bytes-Harmless_example :
    ((receive_bytes slots no_zones env surroundings 7 (1 ∷ []) gateway).0 ≡ ok tt)
    × (((1048576 < 1)
          × ((receive_bytes slots no_zones env surroundings 7 (1 ∷ []) gateway).1
              ≡ record gateway { disconnected = 7 ∷ [] }))
        ⊎ Harmless slots no_zones env surroundings 7
            (some deletion)
            gateway
            (receive_bytes slots no_zones env surroundings 7 (1 ∷ []) gateway).1)
receive_bytes-Harmless_example =
    receive_bytes-Harmless slots no_zones env surroundings 7 (1 ∷ []) gateway refl

-- The viewer 7 sends a command with the id of the stop that the gateway waits for, and the ward manager
-- tells its observer that it is rejected.
abbrev forging : Surroundings (Unit {0}) ℕ ℕ ℕ ℕ
forging = record surroundings {
  decode = λ bytes. some (ward_payload 0);
  reject_viewer_payload = λ client payload v. (
    record {
      command_id = text "fleet-mission-stop-m-drone-1";
      ward_id = text "drone";
      status = rejected;
      message = text "read-only session";
    }
        ∷ [],
    v,
  );
}

abbrev waiting : GatewayState Slot (Unit {0}) (Unit {0}) ℕ ℕ ℕ
waiting = record gateway { missions = last_stop }

-- The state of the mission's ward.
abbrev state_of : Slot → Option WardMissionStatus
state_of none = none
state_of (some stored) = some stored.0.status

-- A viewer's command with the id of a pending stop: the stop is not waited for any more, and the ward is
-- taken to fly its mission again.
forged_outcome :
    let end = (receive_bytes slots no_zones env forging 7 [] waiting).1.missions in
    (end.pending_stops ≡ []) × (state_of end.store ≡ some active)
unfolding receive_bytes max_envelope_bytes text_eq lookup erase handle_command_outcome
    find_ward_state
forged_outcome = (refl, refl)

-- A store with one zone at most, which has a name and no place.
abbrev one_zone : FleetZoneStore (List (Zone ℕ ℕ)) ℕ ℕ
one_zone = record {
  create_fleet = λ name description t. (threw (text "no fleets"), t);
  rename_fleet = λ id name description t. (ok (some (text "unknown")), t);
  delete_fleet = λ id t. (ok (some (text "unknown")), t);
  add_ward_to_fleet = λ id ward_id t. (ok (some (text "unknown")), t);
  remove_ward_from_fleet = λ id ward_id t. (ok (some (text "unknown")), t);
  list_fleets = λ t. (ok [], t);
  create_zone = λ name kind vertices low high t. (
    ok (text "z"),
    record {
      zone_id = text "z";
      name = name;
      zone_type = kind;
      vertices = vertices;
      altitude_min_m = low;
      altitude_max_m = high;
    }
        ∷ [],
  );
  update_zone = λ id name kind low high t. (ok (some (text "fixed")), t);
  delete_zone = λ id t. (ok none, []);
  list_zones = λ t. (ok t, t);
}

one_zone-KeepsZones : KeepsZones one_zone (λ t. t)
one_zone-KeepsZones = record {
  list-reads = λ t listed e. cc;
  list-keeps = λ t. refl;
  create-fails = λ name kind vertices low high t e h. cc;
  update-fails = λ id name kind low high t e h. refl;
  delete-fails = λ id t e h. elim h [ inl a ↦ cc | inr a ↦ cc ];
}

-- Wards that remember their geofence.
abbrev fenced : Surroundings (List (Zone ℕ ℕ)) ℕ ℕ ℕ ℕ
fenced = record {
  decode = λ bytes. none;
  is_viewer = λ client. false;
  reject_viewer_payload = λ client payload v. ([], v);
  serve_payload = λ client payload v. ([], v);
  push_geofence = λ zones v. zones;
}

abbrev fence_env : Environment (List (Zone ℕ ℕ)) ℕ ℕ
fence_env = record {
  wards = record {
    dispatch_command = λ command v. ([], v);
    dispatch_mission_upload_and_start = λ mission v. (none, v);
    now_ms = λ v. 5;
    now_ns = λ v. text "1";
  };
  to_string = λ n. text "1";
  zero = 0;
}

abbrev unfenced : GatewayState Slot (List (Zone ℕ ℕ)) (List (Zone ℕ ℕ)) ℕ ℕ ℕ
unfenced = record {
  missions = record { store = none; wards = []; pending_stops = []; broadcasts = [] };
  registry = record { store = []; sent = [] };
  disconnected = [];
}

abbrev triangle : ClientEnvelope ℕ ℕ ℕ ℕ
triangle = create_zone (record {
  request_id = text "r";
  name = text "field";
  zone_type = keep_in;
  vertices = 1 ∷ 2 ∷ 3 ∷ [];
  altitude_min_m = none;
  altitude_max_m = none;
})

serve_zone-Pushed_example :
    Pushed slots one_zone fence_env fenced
      (λ t. t)
      one_zone-KeepsZones
      unfenced
      (serve_envelope slots one_zone fence_env fenced 8 triangle unfenced)
    ⊎ ListThrows slots one_zone fence_env fenced
        (λ t. t)
        one_zone-KeepsZones
        triangle
        unfenced.registry
serve_zone-Pushed_example =
    serve_zone-Pushed slots one_zone fence_env fenced (λ t. t) one_zone-KeepsZones 8 triangle
      unfenced tt
