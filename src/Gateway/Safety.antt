-- ===== src/Gateway/Safety.antt =====
-- What a client that may only read can do to the gateway.
use karshipta.Fleet.Missions.{FleetState, PendingStop}
use karshipta.Registry.Snapshot.{mission_messages}
use karshipta.Messages.{CommandAck}
use karshipta.Fleet.Outcomes.{is_terminal, handle_command_outcome, handle_outcomes}
use karshipta.Registry.Zones.{zone_ack}
use karshipta.Registry.Fleets.{fleet_ack}
use karshipta.Gateway.Receive.{
  wards_answered, max_envelope_bytes, reject_payload, receive_bytes, receive_envelope,
}
use karshipta.Gateway.Envelope.{
  ClientEnvelope, GatewayState, Surroundings, create_fleet, rename_fleet, delete_fleet,
  add_ward_to_fleet, remove_ward_from_fleet, create_zone, update_zone, delete_zone,
  create_fleet_mission, stop_fleet_mission, remove_fleet_mission, update_fleet_mission_routes,
  ward_payload,
}
use karshipta.Fleet.Effects.{ok}
use karshipta.Gateway.Envelope.{ward_payload, GatewayState, ClientEnvelope, Surroundings}
use karshipta.Fleet.Messages.{ack_rejected}
use karshipta.Fleet.Dispatch.{fleet_mission_ack, Environment}
use karshipta.Registry.Types.{
  send_out, sends_fleet_mission, sends_zone, sends_fleet, sends_fleet_mission_ack, sends_zone_ack,
  sends_fleet_ack, FleetZoneStore, Broadcast,
}
use karshipta.Fleet.MissionStore.{MissionStore}
use karshipta.Common.{
  append-nil, ◌∙◌, ap, lookup, inr, ltb→lt, inl, ltb, Bool-cases, ◌⊎◌, ◌∷◌, ◌++◌, length, refl, ◌<◌,
  true, none, [], some, ℕ, ◌≡◌, List, Text, Option,
}

-- The rejection of a request, with the request's id.
abbrev pub IsRejection : {G D F : Type 0} → Text → Broadcast G D F → Type 0
IsRejection id (sends_fleet_ack ack) = (ack.request_id ≡ id) × (ack.status ≡ ack_rejected)
IsRejection id (sends_zone_ack ack) = (ack.request_id ≡ id) × (ack.status ≡ ack_rejected)
IsRejection id (sends_fleet_mission_ack ack) = (ack.request_id ≡ id) × (ack.status ≡ ack_rejected)
IsRejection id (sends_fleet fleet) = ⊥
IsRejection id (sends_zone zone) = ⊥
IsRejection id (sends_fleet_mission mission) = ⊥

abbrev pub request_id_of : {G D F P : Type 0} → ClientEnvelope G D F P → Text
request_id_of (create_fleet request) = request.request_id
request_id_of (rename_fleet request) = request.request_id
request_id_of (delete_fleet request) = request.request_id
request_id_of (add_ward_to_fleet request) = request.request_id
request_id_of (remove_ward_from_fleet request) = request.request_id
request_id_of (create_zone request) = request.request_id
request_id_of (update_zone request) = request.request_id
request_id_of (delete_zone request) = request.request_id
request_id_of (create_fleet_mission request) = request.request_id
request_id_of (stop_fleet_mission request) = request.request_id
request_id_of (remove_fleet_mission request) = request.request_id
request_id_of (update_fleet_mission_routes request) = request.request_id
request_id_of (ward_payload payload) = []

module _ {S T V G D F P : Type 0} (missions : MissionStore S D F) (registry : FleetZoneStore T G F)
    (env : Environment V D F) (around : Surroundings V G D F P) where
  -- None of the acks is that of a stop command that the fleet manager waits for.
  abbrev pub NonePending : List CommandAck → List (Text × PendingStop) → Type 0
  NonePending [] pending = Unit {0}
  NonePending (ack ∷ acks) pending =
      (lookup ack.command_id pending ≡ none) × NonePending acks pending

  outcomes_not_awaited :
      (acks : List CommandAck) (s : FleetState S V D F)
      → NonePending acks s.pending_stops
      → handle_outcomes missions acks s ≡ s
  unfolding handle_outcomes handle_command_outcome
  outcomes_not_awaited [] s n = refl
  outcomes_not_awaited (ack ∷ acks) s n =
      let same : handle_command_outcome missions ack s ≡ s =
        elim (Bool-cases (is_terminal ack.status)) [
          | inl terminal ↦ rw (terminal, n.0) refl
          | inr waits ↦ rw waits refl
        ] in
      ap (handle_outcomes missions acks) same ∙ outcomes_not_awaited acks s n.1

  -- What an envelope of a viewer may change: nothing, or one rejection is broadcast, or the ward manager
  -- rejects a payload of its own.
  abbrev pub Harmless :
      ℕ
      → Option (ClientEnvelope G D F P)
      → GatewayState S T V G D F
      → GatewayState S T V G D F
      → Type 0
  Harmless client none g g' = g' ≡ g
  Harmless client (some (ward_payload payload)) g g' =
      let answer = around.reject_viewer_payload client payload g.missions.wards in
      (g'.registry.store ≡ g.registry.store)
      × (g'.disconnected ≡ g.disconnected)
      × (NonePending answer.0 g.missions.pending_stops
          → g' ≡ record g { missions = record g.missions { wards = answer.1 } })
  Harmless client (some envelope) g g' =
      (message : Broadcast G D F) × IsRejection (request_id_of envelope) message
      × (g' ≡ record g { registry = send_out message g.registry })

  reject_payload-Harmless :
      (client : ℕ) (envelope : ClientEnvelope G D F P) (g : GatewayState S T V G D F)
      → Harmless client
          (some envelope)
          g
          (reject_payload missions registry env around client envelope g)
  unfolding reject_payload wards_answered mission_messages fleet_ack zone_ack fleet_mission_ack
  reject_payload-Harmless client (create_fleet request) g = (_, (refl, refl), refl)
  reject_payload-Harmless client (rename_fleet request) g = (_, (refl, refl), refl)
  reject_payload-Harmless client (delete_fleet request) g = (_, (refl, refl), refl)
  reject_payload-Harmless client (add_ward_to_fleet request) g = (_, (refl, refl), refl)
  reject_payload-Harmless client (remove_ward_from_fleet request) g = (_, (refl, refl), refl)
  reject_payload-Harmless client (create_zone request) g = (_, (refl, refl), refl)
  reject_payload-Harmless client (update_zone request) g = (_, (refl, refl), refl)
  reject_payload-Harmless client (delete_zone request) g = (_, (refl, refl), refl)
  reject_payload-Harmless client (create_fleet_mission request) g = (_, (refl, refl), refl)
  reject_payload-Harmless client (stop_fleet_mission request) g = (_, (refl, refl), refl)
  reject_payload-Harmless client (remove_fleet_mission request) g = (_, (refl, refl), refl)
  reject_payload-Harmless client (update_fleet_mission_routes request) g = (_, (refl, refl), refl)
  reject_payload-Harmless client (ward_payload payload) g =
      let answer = around.reject_viewer_payload client payload g.missions.wards in
      (
        refl,
        refl,
        λ n.
            ap
              (λ told. record g {
                missions = record told { broadcasts = g.missions.broadcasts };
                registry = record g.registry {
                  sent = g.registry.sent ++ mission_messages told.broadcasts;
                };
              })
              (outcomes_not_awaited answer.0
                (record g.missions { wards = answer.1; broadcasts = [] }) n)
            ∙ ap
                (λ sent. record g {
                  missions = record g.missions { wards = answer.1 };
                  registry = record g.registry { sent = sent };
                })
                (append-nil g.registry.sent),
      )

  viewer-Harmless :
      (client : ℕ) (envelope : Option (ClientEnvelope G D F P)) (g : GatewayState S T V G D F)
      → around.is_viewer client ≡ true
      → ((receive_envelope missions registry env around client envelope g).0 ≡ ok tt)
        × Harmless client envelope g
            (receive_envelope missions registry env around client envelope g).1
  unfolding receive_envelope
  viewer-Harmless client none g viewer = (refl, refl)
  viewer-Harmless client (some envelope) g viewer =
      rw viewer (refl, reject_payload-Harmless client envelope g)

  -- Whatever bytes a client sends that may only read: no exception leaves the handler. The client is
  -- disconnected, if they are more than a mebibyte; else nothing changes, or one rejection is broadcast,
  -- with the id of the request, or the ward manager rejects a payload that is its own. That leaves the
  -- fleets and the zones; it leaves the missions, the pending stops and the broadcasts too, unless it
  -- gives an ack with the id of a command that a pending stop waits for.
  pub receive_bytes-Harmless :
      (client : ℕ) (bytes : List ℕ) (g : GatewayState S T V G D F)
      → around.is_viewer client ≡ true
      → ((receive_bytes missions registry env around client bytes g).0 ≡ ok tt)
        × (((1048576 < length bytes)
              × ((receive_bytes missions registry env around client bytes g).1
                  ≡ record g { disconnected = g.disconnected ++ client ∷ [] }))
            ⊎ Harmless client
                (around.decode bytes)
                g
                (receive_bytes missions registry env around client bytes g).1)
  unfolding receive_bytes max_envelope_bytes
  receive_bytes-Harmless client bytes g viewer =
      elim (Bool-cases (ltb max_envelope_bytes (length bytes))) [
        | inl big ↦ rw big (refl, inl (ltb→lt max_envelope_bytes (length bytes) big, refl))
        | inr small ↦
            let answer = viewer-Harmless client (around.decode bytes) g viewer in
            rw small (answer.0, inr answer.1)
      ]
