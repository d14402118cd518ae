-- ===== src/HeraldWards/Manager.antt =====
-- herald_ward_manager.cpp: one call of each operation. Envelopes stand for their serialized bytes.
use karshipta.Common.{
  ℕ, ◌+◌, Bool, true, false, List, [], ◌∷◌, ◌++◌, Option, none, some, ltb, if◌then◌else◌, Text,
  text, lookup, insert,
}
use karshipta.Messages.{
  Numbers, EntityClass, unspecified, multirotor, fixed_wing, vtol, helicopter, ground_vehicle,
  livestock_tag, generic_tracker, Herald, HeraldGps, WardClass, class_unspecified, class_multirotor,
  class_fixed_wing, class_vtol, class_helicopter, class_ground, class_livestock_tag,
  class_generic_tracker, origin_hardware, WardInfo, WardGps, WardState, Envelope, info_envelope,
  state_envelope, event_envelope,
}

pub to_ward_class : EntityClass → WardClass
to_ward_class multirotor = class_multirotor
to_ward_class fixed_wing = class_fixed_wing
to_ward_class vtol = class_vtol
to_ward_class helicopter = class_helicopter
to_ward_class ground_vehicle = class_ground
to_ward_class livestock_tag = class_livestock_tag
to_ward_class generic_tracker = class_generic_tracker
to_ward_class unspecified = class_unspecified

-- `wall` times are the system clock's, `now` times the steady clock's.
pub record LastSeen (D F : Type 0) : Type 0 where
  pub last_state : WardState D F
  pub last_seen_at : ℕ
  pub marked_stale : Bool

pub record Manager (D F : Type 0) : Type 0 where
  pub known_wards : List (Text × WardInfo)
  pub last_seen : List (Text × LastSeen D F)

-- Calls of the transport.
pub data Action (D F : Type 0) : Type 0 where
  broadcast : Envelope D F → Action D F
  send : ℕ → Envelope D F → Action D F

pub data IngestResult : Type 0 where
  ok ward_id_collision : IngestResult

unfoldable pub new_ward_info : {D F : Type 0} → Herald D F → WardInfo
unfolding to_ward_class
new_ward_info msg = record {
  ward_id = msg.entity_id;
  ward_class = to_ward_class msg.entity_class;
  autopilot = [];
  firmware_version = [];
  mavlink_system_id = 0;
  origin = origin_hardware;
}

pub to_ward_gps : {F : Type 0} → HeraldGps F → WardGps F
to_ward_gps gps = record { num_satellites = gps.num_satellites; hdop = gps.hdop }

-- The readings of the clocks during one call of `ingest`.
pub record Times : Type 0 where
  pub ingestion_ms : ℕ
  pub seen_at : ℕ
  pub out_of_order_ms : ℕ
  pub skew_ms : ℕ

module _ {D F : Type 0} where
  unfoldable pub build_ward_state : Numbers D F → Herald D F → ℕ → WardState D F
  unfolding to_ward_gps
  build_ward_state numbers msg wall = record {
    ward_id = msg.entity_id;
    timestamp_ms = msg.timestamp_ms;
    ingestion_ms = wall;
    position = elim msg.position [
      | some position ↦ position
      | none ↦ record {
        latitude_deg = numbers.double_zero;
        longitude_deg = numbers.double_zero;
        altitude_msl_m = numbers.float_zero;
        altitude_rel_m = numbers.float_zero;
      }
    ];
    velocity = msg.velocity;
    battery = msg.battery;
    gps = elim msg.gps [ none ↦ none | some gps ↦ some (to_ward_gps gps) ];
    health_ok = msg.health_ok;
    connected = true;
    tags = msg.tags;
  }

  unfoldable pub herald_event : Text → ℕ → Text → Text → Action D F
  herald_event ward_id wall code message = broadcast (
      event_envelope
        (record { ward_id = ward_id; timestamp_ms = wall; code = code; message = message }))

  -- The first critical section of `ingest`, and the broadcast that follows it.
  unfoldable pub meet : Herald D F → Manager D F → Manager D F × List (Action D F)
  unfolding new_ward_info
  meet msg m = elim (lookup msg.entity_id m.known_wards) [
    | some info ↦ (m, [])
    | none ↦ (
      record m { known_wards = insert msg.entity_id (new_ward_info msg) m.known_wards },
      broadcast (info_envelope (new_ward_info msg)) ∷ [],
    )
  ]

  -- The second critical section of `ingest`.
  unfoldable pub refresh : WardState D F → Text → ℕ → Manager D F → Manager D F
  refresh state entity_id now m = record m {
    last_seen =
        insert entity_id (record { last_state = state; last_seen_at = now; marked_stale = false })
          m.last_seen;
  }

  -- Whether the sample is older than the one that was accepted before it.
  unfoldable pub is_out_of_order : WardState D F → Option (LastSeen D F) → Bool
  is_out_of_order state none = false
  is_out_of_order state (some previous) = ltb state.timestamp_ms previous.last_state.timestamp_ms

  -- The broadcasts after the second critical section.
  unfoldable pub report : WardState D F → Text → Times → Option (LastSeen D F) → List (Action D F)
  unfolding is_out_of_order herald_event
  report state entity_id times previous =
      (if is_out_of_order state previous
        then herald_event entity_id times.out_of_order_ms (text "OUT_OF_ORDER_SAMPLE")
            (text "sample timestamp is older than the last accepted reading for this ward")
          ∷ []
        else [])
      ++ (if ltb state.ingestion_ms state.timestamp_ms
          then herald_event entity_id times.skew_ms (text "CLOCK_SKEW")
              (text "sample timestamp is ahead of the gateway's own clock")
            ∷ []
          else [])
      ++ broadcast (state_envelope state) ∷ []

  -- `collides` is `ward_manager_.has_ward(entity_id)`.
  unfoldable pub ingest :
      Numbers D F
      → Bool
      → Herald D F
      → Times
      → Manager D F
      → IngestResult × Manager D F × List (Action D F)
  unfolding meet refresh report build_ward_state
  ingest numbers collides msg times m =
      if collides
      then (ward_id_collision, m, [])
      else let met = meet msg m in
        let state = build_ward_state numbers msg times.ingestion_ms in
        let previous = lookup msg.entity_id met.0.last_seen in
        (
          ok,
          refresh state msg.entity_id times.seen_at met.0,
          met.1 ++ report state msg.entity_id times previous,
        )

  -- The marking of one entry, and the state to broadcast for it.
  unfoldable pub is_due : ℕ → ℕ → LastSeen D F → Bool
  is_due timeout now entry =
      if entry.marked_stale
      then false
      else if ltb now (entry.last_seen_at + timeout)
      then false
      else true

  unfoldable pub disconnected : WardState D F → WardState D F
  disconnected state = record state { connected = false }

  unfoldable pub mark : ℕ → ℕ → LastSeen D F → LastSeen D F
  unfolding is_due disconnected
  mark timeout now entry =
      if is_due timeout now entry
      then record entry { marked_stale = true; last_state = disconnected entry.last_state }
      else entry

  -- The critical section of the stale checker.
  unfoldable pub mark_all :
      ℕ → ℕ → List (Text × LastSeen D F) → List (Text × LastSeen D F) × List (WardState D F)
  unfolding mark
  mark_all timeout now [] = ([], [])
  mark_all timeout now ((entity_id, entry) ∷ entries) =
      let rest = mark_all timeout now entries in
      (
        (entity_id, mark timeout now entry) ∷ rest.0,
        (if is_due timeout now entry then (mark timeout now entry).last_state ∷ rest.1 else rest.1),
      )

  -- The check of one ward again, under the lock.
  unfoldable pub still_stale : WardState D F → Manager D F → Bool
  still_stale state m = elim (lookup state.ward_id m.last_seen) [
    | none ↦ false
    | some entry ↦ if entry.marked_stale then true else false
  ]

  unfoldable pub send_known_wards : ℕ → List (Text × WardInfo) → List (Action D F)
  send_known_wards client [] = []
  send_known_wards client ((entity_id, info) ∷ entries) =
      send client (info_envelope info) ∷ send_known_wards client entries
