-- ===== src/Fleet/Orphan/Stop.antt =====
-- A stop request leaves the ward as it is: the loop skips it.
use karshipta.Fleet.Orphan.Outcomes.{handle_outcomes-Orphan}
use karshipta.Fleet.Orphan.Steps.{
  maybe_finalize_stop-Post, writes-Post, answer-Post, status-Post, Orphan,
}
use karshipta.Fleet.Missions.{on_store, PendingStop, get_mission, FleetState}
use karshipta.Fleet.Stop.{
  stopping_state, effective_action, stop_ward, send_stop, handle_stop_fleet_mission, mark_stopping,
  stop_mission, stop_wards,
}
use karshipta.Fleet.Dispatch.{internal_error, Environment}
use karshipta.Fleet.Effects.{Post-caught, Post-intro, Post-bind, Any, Post}
use karshipta.Fleet.Orphan.{
  ward_stopping-Skips, holds_stopping, tracks-insert, is_stoppable, Skips, is_stop_of,
}
use karshipta.Fleet.Messages.{
  mission_stopping, StopFleetMission, WardMissionState, StopAction, FleetMission,
}
use karshipta.Common.{
  ltb, none, ap, ◌∙◌, sym, subst, text_eq_iff, some, arith, ◌+◌, inl, inr, Bool-cases, ◌&&◌,
  text_eq, Option, Text, ℕ, ◌≡◌, refl, true, false, List, [], ◌∷◌,
}
use karshipta.Fleet.MissionStore.{Distinct, MissionStore, IsMissionStore}

abbrev SkipsIn : {D F : Type 0} → Text → Option (FleetMission D F) → Type 0
SkipsIn ward_id none = Unit {0}
SkipsIn ward_id (some mission) = Skips ward_id mission.ward_states

holds-SkipsIn :
    {D F : Type 0} (mission : Option (FleetMission D F)) (ward_id : Text)
    → ((m : FleetMission D F) → mission ≡ some m → Distinct m.ward_states)
    → holds_stopping mission ward_id ≡ true
    → SkipsIn ward_id mission
unfolding holds_stopping
holds-SkipsIn none ward_id d h = tt
holds-SkipsIn (some mission) ward_id d h =
    ward_stopping-Skips mission.ward_states ward_id (d mission refl) h

module _ {S V D F : Type 0} (store : MissionStore S D F)
    (view : S → Text → Option (FleetMission D F)) (laws : IsMissionStore store view)
    (env : Environment V D F) (id ward_id : Text) where
  abbrev pub Stays : FleetState S V D F → Type 0
  Stays = Orphan store view laws id ward_id

  send_stop-Orphan :
      (id' : Text) (action : StopAction) (state : WardMissionState) (command_id : Text)
      (s : FleetState S V D F)
      → (text_eq id' id && text_eq state.ward_id ward_id) ≡ false
      → Stays s
      → Stays (send_stop store env id' action state command_id s)
  unfolding send_stop is_stop_of
  send_stop-Orphan id' action state command_id s h o =
      let pending : PendingStop = record { fleet_mission_id = id'; ward_id = state.ward_id } in
      handle_outcomes-Orphan store view laws id ward_id _ _
        (o.0, tracks-insert id ward_id command_id pending s.pending_stops h o.1)

  stop_ward-Post :
      (id' : Text) (action : StopAction) (state : WardMissionState) (s : FleetState S V D F)
      → (text_eq id' id && text_eq state.ward_id ward_id) ≡ false
      → Stays s
      → Post Stays Any (stop_ward store env id' action state s)
  unfolding stop_ward
  stop_ward-Post id' action state s h o =
      Post-bind Stays Any Any
        (on_store store (store.update_ward_state id' (stopping_state store env state))) _ s
        (writes-Post store view laws id ward_id id' (stopping_state store env state) s (inl h) o)
        (λ r s' _ o'. (send_stop-Orphan id' action state _ s' h o', tt))

  stop_wards-Post :
      (id' : Text) (action : StopAction) (states : List WardMissionState) (dispatched : ℕ)
      (s : FleetState S V D F)
      → (text_eq id' id ≡ true → Skips ward_id states)
      → Stays s
      → Post Stays Any (stop_wards store env id' action states dispatched s)
  unfolding stop_wards
  stop_wards-Post id' action [] dispatched s h o = (o, tt)
  stop_wards-Post id' action (state ∷ states) dispatched s h o =
      elim (Bool-cases (is_stoppable state)) [
        | inr e ↦ rw e (stop_wards-Post id' action states dispatched s (λ q. (h q).1) o)
        | inl e ↦
            let skipped = λ (q : text_eq id' id ≡ true). (h q).0 in
            let apart : (text_eq id' id && text_eq state.ward_id ward_id) ≡ false = ground arith in
            rw e (
              Post-bind Stays Any Any (stop_ward store env id' action state)
                (λ _. stop_wards store env id' action states (dispatched + 1)) s
                (stop_ward-Post id' action state s apart o)
                (λ u s' _ o'.
                  stop_wards-Post id' action states (dispatched + 1) s' (λ q. (h q).1) o'))
      ]

  get-SkipsIn :
      (id' : Text) (s : FleetState S V D F)
      → Stays s
      → Post Stays (λ m. text_eq id' id ≡ true → SkipsIn ward_id m) (get_mission store id' s)
  get-SkipsIn id' s o =
      let answer = store.get_fleet_mission id' s.store in
      Post-intro Stays (λ m. text_eq id' id ≡ true → SkipsIn ward_id m) (get_mission store id' s)
        (rw (laws.get-keeps id' s.store id) o.0, o.1)
        (λ m e q.
          let read = laws.get-reads id' s.store m e in
          let same = (text_eq_iff id' id).0 q in
          subst (SkipsIn ward_id) (sym (read ∙ ap (view s.store) same))
            (holds-SkipsIn (view s.store id) ward_id (laws.wards-Distinct s.store id) o.0))

  mark_stopping-Post :
      (id' : Text) (dispatched : ℕ) (s : FleetState S V D F)
      → Stays s
      → Post Stays Any (mark_stopping store env id' dispatched s)
  unfolding mark_stopping
  mark_stopping-Post id' dispatched s o = elim (Bool-cases (ltb 0 dispatched)) [
    | inr e ↦ rw e (o, tt)
    | inl e ↦ rw e (
        Post-bind Stays Any Any (on_store store (store.set_status id' mission_stopping)) _ s
          (status-Post store view laws id ward_id id' mission_stopping s o)
          (λ r s' _ o'. maybe_finalize_stop-Post store view laws id ward_id id' s' o'))
  ]

  stop_mission-Post :
      (request : StopFleetMission) (mission : Option (FleetMission D F)) (s : FleetState S V D F)
      → (text_eq request.fleet_mission_id id ≡ true → SkipsIn ward_id mission)
      → Stays s
      → Post Stays Any (stop_mission store env request mission s)
  unfolding stop_mission
  stop_mission-Post request none s h o = (o, tt)
  stop_mission-Post request (some mission) s h o =
      let id' = request.fleet_mission_id in
      Post-bind Stays Any Any
        (stop_wards store env id' (effective_action request.action) mission.ward_states 0) _ s
        (stop_wards-Post id' (effective_action request.action) mission.ward_states 0 s h o)
        (λ dispatched s1 _ o1.
          Post-bind Stays Any Any (mark_stopping store env id' dispatched) _ s1
            (mark_stopping-Post id' dispatched s1 o1)
            (λ u s2 _ o2. answer-Post store view laws id ward_id id' _ s2 o2))

  pub handle_stop-Orphan :
      (request : StopFleetMission) (s : FleetState S V D F)
      → Stays s
      → Stays (handle_stop_fleet_mission store env request s).1
  unfolding handle_stop_fleet_mission
  handle_stop-Orphan request s o =
      let id' = request.fleet_mission_id in
      Post-caught Stays Any _ (internal_error request.request_id id') (
        Post-bind Stays (λ m. text_eq id' id ≡ true → SkipsIn ward_id m) Any (get_mission store id')
          (stop_mission store env request) s (get-SkipsIn id' s o)
          (λ m s' q o'. stop_mission-Post request m s' q o'))
