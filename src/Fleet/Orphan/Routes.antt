-- ===== src/Fleet/Orphan/Routes.antt =====
-- Changing the routes and removing the mission are refused while the ward is unsettled.
use karshipta.Fleet.Orphan.Steps.{get-Post, writes-Post, Orphan, answer-Post}
use karshipta.Fleet.Missions.{get_mission, every_ward_settled, on_store, FleetState}
use karshipta.Fleet.Routes.{
  handle_update_fleet_mission_routes, update_routes, remove_mission, new_routes,
  handle_remove_fleet_mission,
}
use karshipta.Fleet.Dispatch.{is_nil, dispatch_plan, internal_error, dispatch_plans, Environment}
use karshipta.Fleet.Effects.{Post-caught, Result-cases, Post-intro, Post-bind, Any, Post}
use karshipta.Fleet.Orphan.{ward_stopping-unsettled, Reads, holds_stopping}
use karshipta.Fleet.Messages.{
  UpdateFleetMissionRoutes, WardMissionPlan, RemoveFleetMission, FleetMission,
}
use karshipta.Common.{
  none, some, arith, inl, inr, Bool-cases, text_eq, Option, Text, ℕ, ◌≡◌, refl, true, false, List,
  [], ◌∷◌,
}
use karshipta.Fleet.MissionStore.{MissionStore, IsMissionStore}

module _ {S V D F : Type 0} (store : MissionStore S D F)
    (view : S → Text → Option (FleetMission D F)) (laws : IsMissionStore store view)
    (env : Environment V D F) (id ward_id : Text) where
  abbrev pub Stays : FleetState S V D F → Type 0
  Stays = Orphan store view laws id ward_id

  pub dispatch_plans-Post :
      (id' name : Text) (repeat_count : ℕ) (plans : List (WardMissionPlan D F))
      (s : FleetState S V D F)
      → text_eq id' id ≡ false
      → Stays s
      → Post Stays Any (dispatch_plans store env id' name repeat_count plans s)
  unfolding dispatch_plans dispatch_plan
  dispatch_plans-Post id' name repeat_count [] s h o = (o, tt)
  dispatch_plans-Post id' name repeat_count (plan ∷ plans) s h o =
      Post-bind Stays Any Any (dispatch_plan store env id' name repeat_count plan) _ s
        (writes-Post store view laws id ward_id id' _ _ (inl (rw h refl)) o)
        (λ u s' _ o'. dispatch_plans-Post id' name repeat_count plans s' h o')

  delete-Post :
      (id' : Text) (s : FleetState S V D F)
      → text_eq id' id ≡ false
      → Stays s
      → Post Stays Any (on_store store (store.delete_fleet_mission id') s)
  delete-Post id' s h o =
      let answer = store.delete_fleet_mission id' s.store in
      let kept : holds_stopping (view answer.1 id) ward_id ≡ true = elim (Result-cases answer.0) [
        | inl (r, e) ↦ rw (laws.delete-writes id' s.store r id e, h) o.0
        | inr (message, e) ↦ rw (laws.delete-fails id' s.store message id e) o.0
      ] in
      Post-intro Stays Any (on_store store (store.delete_fleet_mission id') s) (kept, o.1)
        (λ r e. tt)

  remove_mission-Post :
      (request : RemoveFleetMission) (mission : Option (FleetMission D F)) (s : FleetState S V D F)
      → Reads id ward_id request.fleet_mission_id mission
      → Stays s
      → Post Stays Any (remove_mission store request mission s)
  unfolding remove_mission holds_stopping
  remove_mission-Post request none s h o = (o, tt)
  remove_mission-Post request (some mission) s h o =
      let id' = request.fleet_mission_id in
      let unsettled = ward_stopping-unsettled mission.ward_states ward_id in
      elim (Bool-cases (every_ward_settled mission.ward_states)) [
        | inr e ↦ rw e (o, tt)
        | inl e ↦
            let apart : text_eq id' id ≡ false = ground arith in
            rw e (
              Post-bind Stays Any Any (on_store store (store.delete_fleet_mission id')) _ s
                (delete-Post id' s apart o) (λ r s' _ o'. (o', tt)))
      ]

  pub handle_remove-Orphan :
      (request : RemoveFleetMission) (s : FleetState S V D F)
      → Stays s
      → Stays (handle_remove_fleet_mission store request s).1
  unfolding handle_remove_fleet_mission
  handle_remove-Orphan request s o =
      let id' = request.fleet_mission_id in
      Post-caught Stays Any _ (internal_error request.request_id id') (
        Post-bind Stays (Reads id ward_id id') Any (get_mission store id')
          (remove_mission store request) s (get-Post store view laws id ward_id id' s o)
          (λ m s' q o'. remove_mission-Post request m s' q o'))

  plans-Post :
      (request : UpdateFleetMissionRoutes D F) (s : FleetState S V D F)
      → text_eq request.fleet_mission_id id ≡ false
      → Stays s
      → Post Stays Any (
          on_store store
            (store.update_ward_plans request.fleet_mission_id request.mission_name
              request.repeat_count request.ward_plans)
            s)
  plans-Post request s h o =
      let id' = request.fleet_mission_id in
      let plans = request.ward_plans in
      Post-intro Stays Any _
        (
          rw (laws.plans-keeps id' request.mission_name request.repeat_count plans s.store id h)
              o.0,
          o.1,
        )
        (λ r e. tt)

  new_routes-Post :
      (request : UpdateFleetMissionRoutes D F) (error : Option Text) (s : FleetState S V D F)
      → text_eq request.fleet_mission_id id ≡ false
      → Stays s
      → Post Stays Any (new_routes store env request error s)
  unfolding new_routes
  new_routes-Post request (some message) s h o = (o, tt)
  new_routes-Post request none s h o =
      let id' = request.fleet_mission_id in
      Post-bind Stays Any Any
        (dispatch_plans store env id' request.mission_name request.repeat_count request.ward_plans)
        _ s
        (dispatch_plans-Post id' request.mission_name request.repeat_count request.ward_plans s h o)
        (λ u s' _ o'. answer-Post store view laws id ward_id id' _ s' o')

  update_routes-Post :
      (request : UpdateFleetMissionRoutes D F) (mission : Option (FleetMission D F))
      (s : FleetState S V D F)
      → Reads id ward_id request.fleet_mission_id mission
      → Stays s
      → Post Stays Any (update_routes store env request mission s)
  unfolding update_routes holds_stopping
  update_routes-Post request none s h o = (o, tt)
  update_routes-Post request (some mission) s h o =
      let id' = request.fleet_mission_id in
      let unsettled = ward_stopping-unsettled mission.ward_states ward_id in
      elim (Bool-cases (every_ward_settled mission.ward_states)) [
        | inr e ↦ rw e (o, tt)
        | inl e ↦ elim (Bool-cases (is_nil request.ward_plans)) [
          | inl empty ↦ rw (e, empty) (o, tt)
          | inr planned ↦
              let apart : text_eq id' id ≡ false = ground arith in
              rw (e, planned)
                (Post-bind Stays Any Any
                  (on_store store (
                    store.update_ward_plans id' request.mission_name request.repeat_count
                      request.ward_plans))
                  _ s (plans-Post request s apart o)
                  (λ error s' _ o'. new_routes-Post request error s' apart o'))
        ]
      ]

  pub handle_update-Orphan :
      (request : UpdateFleetMissionRoutes D F) (s : FleetState S V D F)
      → Stays s
      → Stays (handle_update_fleet_mission_routes store env request s).1
  unfolding handle_update_fleet_mission_routes
  handle_update-Orphan request s o =
      let id' = request.fleet_mission_id in
      Post-caught Stays Any _ (internal_error request.request_id id') (
        Post-bind Stays (Reads id ward_id id') Any (get_mission store id')
          (update_routes store env request) s (get-Post store view laws id ward_id id' s o)
          (λ m s' q o'. update_routes-Post request m s' q o'))
