-- ===== src/Fleet/Orphan/Create.antt =====
-- A new fleet mission has another id, so the ward stays as it is.
use karshipta.Fleet.Orphan.Routes.{dispatch_plans-Post}
use karshipta.Fleet.Orphan.Steps.{answer-Post, Orphan}
use karshipta.Fleet.Create.{
  within, create_known, store_and_dispatch, check_fleet, handle_create_fleet_mission,
}
use karshipta.Fleet.Missions.{broadcast_updated, on_store, FleetState}
use karshipta.Fleet.Dispatch.{
  fleet_mission_ack, dispatch_plans, internal_error, is_nil, Environment,
}
use karshipta.Fleet.Effects.{
  pure, ◌>>◌, Result-cases, ok, Post-intro, Post-caught, Post-bind, Any, Post, Result,
}
use karshipta.Fleet.Orphan.{holds_stopping}
use karshipta.Fleet.Messages.{ack_accepted, CreateFleetMission, FleetMission}
use karshipta.Common.{
  text, arith, text_eq_iff, subst, none, [], is_empty, true, inr, inl, false, Bool-cases, text_eq,
  ◌≡◌, Bool, Option, Text,
}
use karshipta.Fleet.MissionStore.{IsMissionStore, MissionStore}

module _ {S V D F : Type 0} (store : MissionStore S D F)
    (view : S → Text → Option (FleetMission D F)) (laws : IsMissionStore store view)
    (env : Environment V D F) (id ward_id : Text) where
  abbrev Stays : FleetState S V D F → Type 0
  Stays = Orphan store view laws id ward_id

  create-Post :
      (request : CreateFleetMission D F) (s : FleetState S V D F)
      → Stays s
      → Post Stays
          (λ id'. text_eq id' id ≡ false)
          (on_store store
            (store.create_fleet_mission request.fleet_id request.mission_name request.repeat_count
              request.ward_plans)
            s)
  unfolding holds_stopping
  create-Post request s o =
      let name = request.mission_name in
      let count = request.repeat_count in
      let plans = request.ward_plans in
      let answer = store.create_fleet_mission request.fleet_id name count plans s.store in
      let is_new = λ (id' : Text) (e : answer.0 ≡ ok id').
        let fresh = laws.create-fresh request.fleet_id name count plans s.store id' e in
        let apart : text_eq id' id ≡ false = elim (Bool-cases (text_eq id' id)) [
          | inr other ↦ other
          | inl same ↦
              let none_there : view s.store id ≡ none =
                subst (λ j. view s.store j ≡ none) ((text_eq_iff id' id).0 same) fresh in
              let stays : false ≡ true =
                subst (λ m. holds_stopping m ward_id ≡ true) none_there o.0 in
              ground arith
        ] in
        apart in
      let kept : holds_stopping (view answer.1 id) ward_id ≡ true = elim (Result-cases answer.0) [
        | inl (id', e) ↦
            rw (laws.create-keeps request.fleet_id name count plans s.store id' id e (is_new id' e))
              o.0
        | inr (message, e) ↦
            rw (laws.create-fails request.fleet_id name count plans s.store message id e) o.0
      ] in
      Post-intro Stays (λ id'. text_eq id' id ≡ false) _ (kept, o.1) is_new

  within-Post :
      {A : Type 0} (m : FleetState S V D F → Result A × FleetState S V D F) (handler : Text → A)
      (s : FleetState S V D F)
      → Post Stays Any (m s)
      → Post Stays Any (within m handler s)
  within-Post m handler s h = (Post-caught Stays Any (m s) handler h, tt)

  store_and_dispatch-Post :
      (request : CreateFleetMission D F) (s : FleetState S V D F)
      → Stays s
      → Post Stays Any (store_and_dispatch store env request s)
  unfolding store_and_dispatch
  store_and_dispatch-Post request s o =
      let name = request.mission_name in
      let count = request.repeat_count in
      let plans = request.ward_plans in
      Post-bind Stays (λ id'. text_eq id' id ≡ false) Any
        (on_store store (store.create_fleet_mission request.fleet_id name count plans)) _ s
        (create-Post request s o)
        (λ id' s1 apart o1.
          Post-bind Stays Any Any (dispatch_plans store env id' name count plans) _ s1
            (dispatch_plans-Post store view laws env id ward_id id' name count plans s1 apart o1)
            (λ u s2 _ o2.
              let ack =
                fleet_mission_ack request.request_id id' ack_accepted
                  (text "fleet mission created") in
              within-Post (broadcast_updated store id' >> pure ack)
                (internal_error request.request_id id') s2
                (answer-Post store view laws id ward_id id' ack s2 o2)))

  create_known-Post :
      (request : CreateFleetMission D F) (known : Bool) (s : FleetState S V D F)
      → Stays s
      → Post Stays Any (create_known store env request known s)
  unfolding create_known
  create_known-Post request false s o = (o, tt)
  create_known-Post request true s o = elim (Bool-cases (is_nil request.ward_plans)) [
    | inl e ↦ rw e (o, tt)
    | inr e ↦ rw e (store_and_dispatch-Post request s o)
  ]

  check_fleet-Post :
      (known_fleet : Text → S → Result Bool × S) (fleet_id : Text) (s : FleetState S V D F)
      → ((t : S) (j : Text) → view (known_fleet fleet_id t).1 j ≡ view t j)
      → Stays s
      → Post Stays Any (check_fleet store env known_fleet fleet_id s)
  unfolding check_fleet
  check_fleet-Post known_fleet fleet_id s keeps o = elim (Bool-cases (is_empty fleet_id)) [
    | inl e ↦ rw e (o, tt)
    | inr e ↦ rw e (
        Post-intro Stays Any (on_store store (known_fleet fleet_id) s)
          (rw (keeps s.store id) o.0, o.1) (λ r q. tt))
  ]

  pub handle_create-Orphan :
      (known_fleet : Text → S → Result Bool × S) (request : CreateFleetMission D F)
      (s : FleetState S V D F)
      → ((fleet_id : Text) (t : S) (j : Text) → view (known_fleet fleet_id t).1 j ≡ view t j)
      → Stays s
      → Stays (handle_create_fleet_mission store env known_fleet request s).1
  unfolding handle_create_fleet_mission
  handle_create-Orphan known_fleet request s keeps o =
      Post-caught Stays Any _ (internal_error request.request_id []) (
        Post-bind Stays Any Any (check_fleet store env known_fleet request.fleet_id)
          (create_known store env request) s
          (check_fleet-Post known_fleet request.fleet_id s (keeps request.fleet_id) o)
          (λ known s' _ o'. create_known-Post request known s' o'))
