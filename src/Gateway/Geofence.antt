-- ===== src/Gateway/Geofence.antt =====
-- After a request about zones, the wards have the zones that are stored.
use karshipta.Registry.Fleets.{deletion_error}
use karshipta.Fleet.Messages.{ack_rejected, ack_accepted}
use karshipta.Gateway.Receive.{
  serve_envelope, geofence_listed, push_geofence_to_all_wards, is_accepted, zone_acked,
}
use karshipta.Registry.Zones.{
  zone_changed, zone_error, broadcast_zone_if, zone_with_id, find_zone, zone_deleted_ack, zone_ack,
  store_zone, handle_delete_zone, show_zone, handle_update_zone, handle_create_zone,
}
use karshipta.Fleet.Dispatch.{Environment}
use karshipta.Common.{
  sym, ℕ, ◌∙◌, Option-cases, ap, length, ltb, inr, text, refl, Bool-cases, inl, none, some, Option,
  ◌⊎◌, List, ◌≡◌, Text,
}
use karshipta.Registry.Types.{
  UpdateZone, DeleteZone, CreateZone, ZoneAck, Registry, ZoneType, Zone, FleetZoneStore,
}
use karshipta.Fleet.MissionStore.{MissionStore}
use karshipta.Gateway.Envelope.{
  ClientEnvelope, create_fleet, rename_fleet, delete_fleet, add_ward_to_fleet,
  remove_ward_from_fleet, create_fleet_mission, stop_fleet_mission, remove_fleet_mission,
  update_fleet_mission_routes, ward_payload, GatewayState, Surroundings, create_zone, update_zone,
  delete_zone,
}
use karshipta.Fleet.Effects.{Result, ok, threw, ◌>>◌, pure, caught, Result-cases}

-- What is relied on of the store of zones: a list that does not throw gives the zones, and an operation
-- that throws or reports an error leaves them as they were.
pub record KeepsZones {T G F : Type 0} (store : FleetZoneStore T G F) (zones : T → List (Zone G F))
    : Type 0 where
  pub list-reads :
      (t : T) (listed : List (Zone G F)) → (store.list_zones t).0 ≡ ok listed → listed ≡ zones t
  pub list-keeps : (t : T) → zones (store.list_zones t).1 ≡ zones t
  pub create-fails :
      (name : Text) (kind : ZoneType) (vertices : List G) (low high : Option F) (t : T) (e : Text)
      → (store.create_zone name kind vertices low high t).0 ≡ threw e
      → zones (store.create_zone name kind vertices low high t).1 ≡ zones t
  pub update-fails :
      (id name : Text) (kind : ZoneType) (low high : Option F) (t : T) (e : Text)
      → ((store.update_zone id name kind low high t).0 ≡ threw e)
        ⊎ ((store.update_zone id name kind low high t).0 ≡ ok (some e))
      → zones (store.update_zone id name kind low high t).1 ≡ zones t
  pub delete-fails :
      (id : Text) (t : T) (e : Text)
      → ((store.delete_zone id t).0 ≡ threw e) ⊎ ((store.delete_zone id t).0 ≡ ok (some e))
      → zones (store.delete_zone id t).1 ≡ zones t

abbrev pub IsZoneRequest : {G D F P : Type 0} → ClientEnvelope G D F P → Type 0
IsZoneRequest (create_zone request) = Unit {0}
IsZoneRequest (update_zone request) = Unit {0}
IsZoneRequest (delete_zone request) = Unit {0}
IsZoneRequest envelope = ⊥

-- The list of the zones throws.
abbrev pub Throws : {T G F : Type 0} → FleetZoneStore T G F → T → Type 0
Throws store t = (error : Text) × ((store.list_zones t).0 ≡ threw error)

caught-ok :
    {W A : Type 0} (r : Result A × W) (handler : Text → A) (a : A)
    → r.0 ≡ ok a
    → (caught handler r).0 ≡ a
caught-ok (ok b, w) handler a e = cc
caught-ok (threw error, w) handler a e = cc

-- The store after the operation of a request.
module _ {T G F : Type 0} (store : FleetZoneStore T G F) where
  abbrev pub created : CreateZone G F → T → T
  created request t =
      (store.create_zone request.name request.zone_type request.vertices request.altitude_min_m
        request.altitude_max_m t).1

  abbrev pub updated : UpdateZone F → T → T
  updated request t =
      (store.update_zone request.zone_id request.name request.zone_type request.altitude_min_m
        request.altitude_max_m t).1

module _ {T G D F : Type 0} (store : FleetZoneStore T G F) (zones : T → List (Zone G F))
    (laws : KeepsZones store zones) where
  -- The request is accepted, or no zone changes.
  abbrev Answered : Registry T G D F → ZoneAck × Registry T G D F → Type 0
  Answered r answer =
      (answer.0.status ≡ ack_accepted)
      ⊎ ((answer.0.status ≡ ack_rejected) × (zones answer.1.store ≡ zones r.store))

  shown :
      (zone : Option (Zone G F)) (ack : ZoneAck) (r : Registry T G D F)
      → ((broadcast_zone_if store zone >> pure ack) r).0 ≡ ok ack
  shown none ack r = refl
  shown (some zone) ack r = refl

  show_zone-ok :
      (id : Text) (ack : ZoneAck) (r : Registry T G D F)
      → ((show_zone store id ack r).0 ≡ ok ack) ⊎ Throws store r.store
  unfolding show_zone find_zone
  show_zone-ok id ack r = elim (Result-cases (store.list_zones r.store).0) [
    | inl (listed, e) ↦ inl (rw e (shown (zone_with_id listed id) ack _))
    | inr (error, e) ↦ inr (error, e)
  ]

  -- The ack of a change that was stored, after the zone was shown.
  shown-Answered :
      (id : Text) (ack : ZoneAck) (request_id : Text) (before r : Registry T G D F)
      → ack.status ≡ ack_accepted
      → Answered before (caught (zone_error request_id id) (show_zone store id ack r))
        ⊎ Throws store r.store
  shown-Answered id ack request_id before r e = elim (show_zone-ok id ack r) [
    | inl fine ↦ inl (
        inl (
          ap (λ a. a.status)
            (caught-ok (show_zone store id ack r) (zone_error request_id id) ack fine)
          ∙ e))
    | inr throws ↦ inr throws
  ]

  store_zone-Answered :
      (request : CreateZone G F) (r : Registry T G D F)
      → Answered r (store_zone store request r) ⊎ Throws store (created store request r.store)
  unfolding store_zone zone_ack zone_error
  store_zone-Answered request r =
      let answer =
        store.create_zone request.name request.zone_type request.vertices request.altitude_min_m
          request.altitude_max_m r.store in
      elim (Result-cases answer.0) [
        | inl (id, e) ↦
            let ack = zone_ack request.request_id id ack_accepted (text "zone created") in
            let r' : Registry T G D F = record r { store = answer.1 } in
            rw e (shown-Answered id ack request.request_id r r' refl)
        | inr (error, e) ↦ rw e (inl (inr (refl, laws.create-fails _ _ _ _ _ r.store error e)))
      ]

  create-Answered :
      (request : CreateZone G F) (r : Registry T G D F)
      → Answered r (handle_create_zone store request r)
        ⊎ Throws store (created store request r.store)
  unfolding handle_create_zone zone_ack
  create-Answered request r = elim (Bool-cases (ltb (length request.vertices) 3)) [
    | inl few ↦ rw few (inl (inr (refl, refl)))
    | inr enough ↦ rw enough (store_zone-Answered request r)
  ]

  update-Answered :
      (request : UpdateZone F) (r : Registry T G D F)
      → Answered r (handle_update_zone store request r)
        ⊎ Throws store (updated store request r.store)
  unfolding handle_update_zone zone_ack zone_error zone_changed
  update-Answered request r =
      let answer =
        store.update_zone request.zone_id request.name request.zone_type request.altitude_min_m
          request.altitude_max_m r.store in
      elim (Result-cases answer.0) [
        | inr (error, e) ↦
            rw e (inl (inr (refl, laws.update-fails _ _ _ _ _ r.store error (inl e))))
        | inl (found, e) ↦ elim (Option-cases found) [
          | inr (error, f) ↦
              let told = e ∙ ap ok f in
              rw told (inl (inr (refl, laws.update-fails _ _ _ _ _ r.store error (inr told))))
          | inl f ↦
              let told = e ∙ ap ok f in
              let ack =
                zone_ack request.request_id request.zone_id ack_accepted (text "zone updated") in
              let r' : Registry T G D F = record r { store = answer.1 } in
              rw told (shown-Answered request.zone_id ack request.request_id r r' refl)
        ]
      ]

  delete-Answered :
      (request : DeleteZone) (r : Registry T G D F)
      → Answered r (handle_delete_zone store request r)
  unfolding handle_delete_zone zone_deleted_ack zone_ack deletion_error
  delete-Answered request r =
      let answer = store.delete_zone request.zone_id r.store in
      elim (Result-cases answer.0) [
        | inr (error, e) ↦ rw e (inr (refl, laws.delete-fails _ r.store error (inl e)))
        | inl (found, e) ↦ elim (Option-cases found) [
          | inr (error, f) ↦
              let told = e ∙ ap ok f in
              rw told (inr (refl, laws.delete-fails _ r.store error (inr told)))
          | inl f ↦ rw (e ∙ ap ok f) (inl refl)
        ]
      ]

module _ {S T V G D F P : Type 0} (missions : MissionStore S D F) (store : FleetZoneStore T G F)
    (env : Environment V D F) (around : Surroundings V G D F P) (zones : T → List (Zone G F))
    (laws : KeepsZones store zones) where
  -- The wards are given all zones, or the zones and the wards are as they were.
  abbrev pub Pushed :
      GatewayState S T V G D F → Result (Unit {0}) × GatewayState S T V G D F → Type 0
  Pushed g r =
      (r.0 ≡ ok tt)
      × (((r.1.missions ≡ g.missions) × (zones r.1.registry.store ≡ zones g.registry.store))
          ⊎ (r.1.missions ≡ record g.missions {
            wards = around.push_geofence (zones r.1.registry.store) g.missions.wards;
          }))

  zone_acked-Pushed :
      (answer : ZoneAck × Registry T G D F) (g : GatewayState S T V G D F)
      → Answered store zones laws g.registry answer
      → Pushed g (zone_acked missions store env around answer g) ⊎ Throws store answer.1.store
  unfolding zone_acked is_accepted push_geofence_to_all_wards geofence_listed
  zone_acked-Pushed answer g (inr (rejected, same)) = inl (rw rejected (refl, inl (refl, same)))
  zone_acked-Pushed answer g (inl accepted) =
      elim (Result-cases (store.list_zones answer.1.store).0) [
        | inr (error, e) ↦ inr (error, e)
        | inl (listed, e) ↦
            let all = laws.list-reads answer.1.store listed e in
            let kept = laws.list-keeps answer.1.store in
            inl (
              rw (accepted, e)
                (
                  refl,
                  inr (
                      ap
                        (λ zs. record g.missions {
                          wards = around.push_geofence zs g.missions.wards;
                        })
                        (all ∙ sym kept)),
                ))
      ]

  -- A list of the zones that the request leads to throws: the one after the operation of the store, to
  -- show the zone, or the one for the wards.
  abbrev pub ListThrows : ClientEnvelope G D F P → Registry T G D F → Type 0
  ListThrows (create_zone request) r =
      Throws store (created store request r.store)
      ⊎ Throws store (handle_create_zone {D = D} store request r).1.store
  ListThrows (update_zone request) r =
      Throws store (updated store request r.store)
      ⊎ Throws store (handle_update_zone {D = D} store request r).1.store
  ListThrows (delete_zone request) r =
      Throws store (handle_delete_zone {D = D} store request r).1.store
  ListThrows envelope r = ⊥

  -- When an operator's request about zones is served, and no list of the zones throws that it leads to:
  -- no exception leaves the handler, and either the wards are given exactly the zones that are then
  -- stored, as their geofence, or the stored zones, the wards and the fleet missions are as they were.
  -- (A list that does not throw gives the stored zones, and an operation of the store that throws or
  -- reports an error leaves the zones as they were.)
  pub serve_zone-Pushed :
      (client : ℕ) (envelope : ClientEnvelope G D F P) (g : GatewayState S T V G D F)
      → IsZoneRequest envelope
      → Pushed g (serve_envelope missions store env around client envelope g)
        ⊎ ListThrows envelope g.registry
  unfolding serve_envelope
  serve_zone-Pushed client (create_zone request) g h =
      elim (create-Answered store zones laws request g.registry) [
        | inl answered ↦ elim (zone_acked-Pushed _ g answered) [
          | inl pushed ↦ inl pushed
          | inr throws ↦ inr (inr throws)
        ]
        | inr throws ↦ inr (inl throws)
      ]
  serve_zone-Pushed client (update_zone request) g h =
      elim (update-Answered store zones laws request g.registry) [
        | inl answered ↦ elim (zone_acked-Pushed _ g answered) [
          | inl pushed ↦ inl pushed
          | inr throws ↦ inr (inr throws)
        ]
        | inr throws ↦ inr (inl throws)
      ]
  serve_zone-Pushed client (delete_zone request) g h =
      zone_acked-Pushed _ g (delete-Answered store zones laws request g.registry)
  serve_zone-Pushed client (create_fleet request) g h = absurd h
  serve_zone-Pushed client (rename_fleet request) g h = absurd h
  serve_zone-Pushed client (delete_fleet request) g h = absurd h
  serve_zone-Pushed client (add_ward_to_fleet request) g h = absurd h
  serve_zone-Pushed client (remove_ward_from_fleet request) g h = absurd h
  serve_zone-Pushed client (create_fleet_mission request) g h = absurd h
  serve_zone-Pushed client (stop_fleet_mission request) g h = absurd h
  serve_zone-Pushed client (remove_fleet_mission request) g h = absurd h
  serve_zone-Pushed client (update_fleet_mission_routes request) g h = absurd h
  serve_zone-Pushed client (ward_payload payload) g h = absurd h
