-- ===== src/Fleet/Gate.antt =====
-- A fleet mission is removed only when each of its wards is settled.
use karshipta.Fleet.Dispatch.{fleet_mission_ack, internal_error}
use karshipta.Fleet.Missions.{every_ward_settled, FleetState}
use karshipta.Fleet.Routes.{handle_remove_fleet_mission, remove_mission}
use karshipta.Fleet.Effects.{ok, Result-cases, caught}
use karshipta.Fleet.Messages.{
  RemoveFleetMission, ack_rejected, ack_accepted, FleetMissionAck, FleetMission,
}
use karshipta.Fleet.MissionStore.{IsMissionStore, MissionStore}
use karshipta.Common.{
  subst, refl, fun_ext, ap, ◌∙◌, sym, Option-cases, Bool-cases, inl, inr, ◌⊎◌, none, text_eq,
  if◌then◌else◌, true, some, ◌≡◌, Option, Text,
}

module _ {S V D F : Type 0} (store : MissionStore S D F)
    (view : S → Text → Option (FleetMission D F)) (laws : IsMissionStore store view) where
  -- The mission is removed, or nothing is.
  abbrev pub RemoveOutcome :
      (Text → Option (FleetMission D F)) → Text → FleetMissionAck × FleetState S V D F → Type 0
  RemoveOutcome before id answer =
      ((answer.0.status ≡ ack_accepted)
        × ((m : FleetMission D F) × (before id ≡ some m)
            × (every_ward_settled m.ward_states ≡ true)
            × ((j : Text) → view answer.1.store j ≡ (if text_eq id j then none else before j))))
      ⊎ ((answer.0.status ≡ ack_rejected) × ((j : Text) → view answer.1.store j ≡ before j))

  settled-outcome :
      (request : RemoveFleetMission) (m : FleetMission D F) (s : FleetState S V D F)
      → some m ≡ view s.store request.fleet_mission_id
      → every_ward_settled m.ward_states ≡ true
      → RemoveOutcome (view s.store) request.fleet_mission_id (
          caught
            (internal_error request.request_id request.fleet_mission_id)
            (remove_mission store request (some m) s))
  unfolding remove_mission internal_error fleet_mission_ack
  settled-outcome request m s e settled =
      let id = request.fleet_mission_id in
      elim (Result-cases (store.delete_fleet_mission id s.store).0) [
        | inl (r, ran) ↦ elim (Option-cases r) [
          | inl done ↦
              rw (settled, ran, done)
                (inl (refl, (m, sym e, settled, λ j. laws.delete-writes id s.store r j ran)))
          | inr (message, told) ↦
              let unknown = laws.delete-unknown id s.store message (ran ∙ ap ok told) in
              let impossible : some m ≡ none = e ∙ unknown in cc
        ]
        | inr (message, failed) ↦
            rw (settled, failed) (inr (refl, λ j. laws.delete-fails id s.store message j failed))
      ]

  read-outcome :
      (request : RemoveFleetMission) (mission : Option (FleetMission D F)) (s : FleetState S V D F)
      → mission ≡ view s.store request.fleet_mission_id
      → RemoveOutcome (view s.store) request.fleet_mission_id (
          caught
            (internal_error request.request_id request.fleet_mission_id)
            (remove_mission store request mission s))
  unfolding remove_mission fleet_mission_ack
  read-outcome request none s e = inr (refl, λ j. refl)
  read-outcome request (some m) s e = elim (Bool-cases (every_ward_settled m.ward_states)) [
    | inl settled ↦ settled-outcome request m s e settled
    | inr unsettled ↦ rw unsettled (inr (refl, λ j. refl))
  ]

  -- A request to remove a fleet mission is accepted and deletes that mission and no other, where it was
  -- stored and every ward of it is settled; or it is rejected and what is stored stays as it was. The
  -- store is assumed to keep its laws; it may throw.
  pub handle_remove-outcome :
      (request : RemoveFleetMission) (s : FleetState S V D F)
      → RemoveOutcome
          (view s.store)
          request.fleet_mission_id
          (handle_remove_fleet_mission store request s)
  unfolding handle_remove_fleet_mission internal_error fleet_mission_ack
  handle_remove-outcome request s =
      let id = request.fleet_mission_id in
      let answer = store.get_fleet_mission id s.store in
      let same : view answer.1 ≡ view s.store = fun_ext (laws.get-keeps id s.store) in
      elim (Result-cases answer.0) [
        | inl (m, e) ↦
            let read = laws.get-reads id s.store m e in
            rw e (
              subst
                (λ before. RemoveOutcome before id (
                  caught (internal_error request.request_id id)
                    (remove_mission store request m (record s { store = answer.1 }))))
                same
                (read-outcome request m (record s { store = answer.1 })
                  (read ∙ sym (laws.get-keeps id s.store id))))
        | inr (message, e) ↦ rw e (inr (refl, laws.get-keeps id s.store))
      ]
