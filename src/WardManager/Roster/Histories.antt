-- ===== src/WardManager/Roster/Histories.antt =====
-- Any calls of the registry, one after the other.
use karshipta.WardManager.Lifecycle.{stop_scene, force_stop, take_down, Scene}
use karshipta.WardManager.Sections.{start_worker}
use karshipta.WardManager.Roster.Configs.{
  is_named, erase-IsRoster, configs-erase, insert-IsRoster, lookup-configs-some, Accepts,
  configs-insert, IsRoster, configs,
}
use karshipta.WardManager.Roster.Calls.{
  stop_managed_ward, scene_of, put_back, erase_ward, start_scene, force_stop_ward, on_ward,
  remove_ward_impl, start_ward,
}
use karshipta.Common.{
  insert-present, ◌++◌, insert, text, erase, true, none, inr, some, false, ◌^◌, Bool, ◌<◌, Option,
  arith, List, ◌≡◌, inl, Text, ℕ, [], ◌∷◌, refl, sym, ap, ◌∙◌, lookup, subst,
}
use karshipta.WardManager.Roster.Kept.{
  persist-Synced, add_ward_impl-AddPost, persist-managed_wards, InStep, render_configs, AddPost,
  FitCalls, FitsCall, Writes, run_calls, added_or, run_call, Call, adds, removes, starts, stops,
  force_stops,
}
use karshipta.WardManager.Roster.{
  ManagedWard, add_ward_impl, new_ward, WardConfig, emplace_ward, Vehicles, Tools, WardRegistry,
  Added, added, refused, invalid_argument,
}
use karshipta.WardManager.Grounded.{Outcome, stop_scene-Outcome, take_down-Outcome, guarded}
use karshipta.WardManager.Landing.{Forced, force_stop-Forced}

module _ {E M V : Type 0} (vehicles : Vehicles V) where
  Outcome-config :
      (made : E) (v : V) (s : Scene E M V) (result : Option Text × Scene E M V)
      → Outcome vehicles made v s result
      → result.1.ward.config ≡ s.ward.config
  Outcome-config made v s (none, s') o = ap (λ ward. ward.config) o.1
  Outcome-config made v s (some error, s') (inl same) = ap (λ ward. ward.config) same.0
  Outcome-config made v s (some error, s') (inr renewed) = ap (λ ward. ward.config) renewed.0

  Forced-config :
      (made : E) (s : Scene E M V) (result : Option Bool × Scene E M V)
      → Forced vehicles made s result
      → result.1.ward.config ≡ s.ward.config
  Forced-config made s (none, s') f = ap (λ ward. ward.config) f
  Forced-config made s (some true, s') f = ap (λ ward. ward.config) f.0.0
  Forced-config made s (some false, s') (inl same) = ap (λ scene. scene.ward.config) same.1
  Forced-config made s (some false, s') (inr renewed) = ap (λ ward. ward.config) renewed.0

module _ {E M N B V : Type 0} (tools : Tools E M N B V) where
  -- A call on one ward that leaves its configuration leaves those of all, and the file.
  abbrev pub SameConfigs : WardRegistry E M B V → WardRegistry E M B V → Type 0
  SameConfigs s s' = (configs s'.managed_wards ≡ configs s.managed_wards) × (s'.stored ≡ s.stored)

  on_ward-SameConfigs :
      {A : Type 0} (unknown : A) (call : Scene E M V → A × Scene E M V) (id : Text)
      (found : Option (ManagedWard E M)) (s : WardRegistry E M B V)
      → lookup id s.managed_wards ≡ found
      → ((scene : Scene E M V) → (call scene).1.ward.config ≡ scene.ward.config)
      → IsRoster (configs s.managed_wards)
      → SameConfigs s (on_ward unknown call id found s).1
  unfolding on_ward put_back scene_of
  on_ward-SameConfigs unknown call id none s e keeps r = (refl, refl)
  on_ward-SameConfigs unknown call id (some ward) s e keeps r =
      let after = (call (scene_of ward s)).1.ward in
      let put = configs-insert id after s.managed_wards in
      let same = ap (λ cfg. insert id cfg (configs s.managed_wards)) (keeps (scene_of ward s)) in
      let present =
        insert-present id ward.config (configs s.managed_wards) r.0
          (lookup-configs-some id ward s.managed_wards e) in
      (put ∙ same ∙ present, refl)

  start_scene-config :
      (scene : Scene E M V) → (start_scene tools scene).1.ward.config ≡ scene.ward.config
  unfolding start_scene start_worker
  start_scene-config scene = ground arith

  start-SameConfigs :
      (id : Text) (s : WardRegistry E M B V)
      → IsRoster (configs s.managed_wards)
      → SameConfigs s (start_ward tools id s).1
  unfolding start_ward
  start-SameConfigs id s r =
      on_ward-SameConfigs false (start_scene tools) id (lookup id s.managed_wards) s refl
        start_scene-config r

  stop-SameConfigs :
      (id : Text) (s : WardRegistry E M B V)
      → IsRoster (configs s.managed_wards)
      → SameConfigs s (stop_managed_ward tools id s).1
  unfolding stop_managed_ward
  stop-SameConfigs id s r =
      on_ward-SameConfigs (some (text "unknown ward_id"))
        (λ scene. stop_scene tools.vehicles (tools.make_executor scene.ward.config) scene) id
        (lookup id s.managed_wards) s refl
        (λ scene.
          let made = tools.make_executor scene.ward.config in
          Outcome-config tools.vehicles made (guarded tools.vehicles scene) scene
            (stop_scene tools.vehicles made scene) (stop_scene-Outcome tools.vehicles made scene))
        r

  force_stop-SameConfigs :
      (fuel : ℕ) (id : Text) (s : WardRegistry E M B V)
      → IsRoster (configs s.managed_wards)
      → SameConfigs s (force_stop_ward tools fuel id s).1
  unfolding force_stop_ward
  force_stop-SameConfigs fuel id s r =
      on_ward-SameConfigs (some false)
        (λ scene. force_stop tools.vehicles fuel (tools.make_executor scene.ward.config) scene) id
        (lookup id s.managed_wards) s refl
        (λ scene.
          let made = tools.make_executor scene.ward.config in
          Forced-config tools.vehicles made scene (force_stop tools.vehicles fuel made scene)
            (force_stop-Forced tools.vehicles fuel made scene))
        r

  same-InStep : (s s' : WardRegistry E M B V) → SameConfigs s s' → InStep tools s → InStep tools s'
  same-InStep s s' same (r, inl nothing) =
      (subst IsRoster (sym same.0) r, inl (same.0 ∙ nothing.0, same.1 ∙ nothing.1))
  same-InStep s s' same (r, inr written) = (
    subst IsRoster (sym same.0) r,
    inr (same.1 ∙ written ∙ ap (λ entries. some (render_configs tools entries)) (sym same.0)),
  )

  emplaced-InStep :
      (cfg : WardConfig) (s : WardRegistry E M B V)
      → Writes tools
      → (cfg.system_id < 2 ^ 32) × (is_named cfg.ward_class ≡ true)
      → Accepts cfg (configs s.managed_wards)
      → InStep tools s
      → InStep tools (emplace_ward tools cfg true s)
  unfolding emplace_ward new_ward
  emplaced-InStep cfg s w fits a k =
      let grown : WardRegistry E M B V = record s {
        managed_wards = insert cfg.ward_id (new_ward tools cfg) s.managed_wards;
      } in
      let same =
        ap configs (persist-managed_wards tools grown)
        ∙ configs-insert cfg.ward_id (new_ward tools cfg) s.managed_wards in
      (
        subst IsRoster (sym same) (insert-IsRoster cfg (configs s.managed_wards) fits a k.0),
        persist-Synced tools grown w,
      )

  added-InStep :
      (cfg : WardConfig) (s : WardRegistry E M B V) (result : Added (WardRegistry E M B V))
      → Writes tools
      → (cfg.system_id < 2 ^ 32) × (is_named cfg.ward_class ≡ true)
      → AddPost tools cfg true s result
      → InStep tools s
      → InStep tools (added_or s result)
  unfolding added_or
  added-InStep cfg s (added s') w fits p k =
      subst (InStep tools) (sym p.1) (emplaced-InStep cfg s w fits p.0 k)
  added-InStep cfg s (refused error) w fits p k = k
  added-InStep cfg s (invalid_argument what) w fits p k = k

  erased-InStep :
      (id : Text) (result : Option Text × WardRegistry E M B V)
      → Writes tools
      → InStep tools result.1
      → InStep tools (erase_ward tools id result).1
  unfolding erase_ward
  erased-InStep id (some error, s) w k = k
  erased-InStep id (none, s) w k =
      let less : WardRegistry E M B V = record s { managed_wards = erase id s.managed_wards } in
      let same = ap configs (persist-managed_wards tools less) ∙ configs-erase id s.managed_wards in
      (
        subst IsRoster (sym same) (erase-IsRoster id (configs s.managed_wards) k.0),
        persist-Synced tools less w,
      )

  remove-InStep :
      (id : Text) (s : WardRegistry E M B V)
      → Writes tools
      → InStep tools s
      → InStep tools (remove_ward_impl tools id s).1
  unfolding remove_ward_impl
  remove-InStep id s w k =
      let call = λ (scene : Scene E M V).
        take_down tools.vehicles (tools.make_executor scene.ward.config) scene in
      let result =
        on_ward (some (text "unknown ward_id: " ++ id)) call id (lookup id s.managed_wards) s in
      erased-InStep id result w (
        same-InStep s result.1
          (on_ward-SameConfigs (some (text "unknown ward_id: " ++ id)) call id
            (lookup id s.managed_wards) s refl
            (λ scene.
              let made = tools.make_executor scene.ward.config in
              Outcome-config tools.vehicles made (guarded tools.vehicles scene) scene
                (take_down tools.vehicles made scene) (take_down-Outcome tools.vehicles made scene))
            k.0)
          k)

  call-InStep :
      (call : Call) (s : WardRegistry E M B V)
      → Writes tools
      → FitsCall call
      → InStep tools s
      → InStep tools (run_call tools call s)
  unfolding run_call
  call-InStep (adds cfg) s w fits k =
      added-InStep cfg s (add_ward_impl tools cfg true s) w fits
        (add_ward_impl-AddPost tools cfg true s) k
  call-InStep (removes id) s w fits k = remove-InStep id s w k
  call-InStep (starts id) s w fits k =
      same-InStep s (start_ward tools id s).1 (start-SameConfigs id s k.0) k
  call-InStep (stops id) s w fits k =
      same-InStep s (stop_managed_ward tools id s).1 (stop-SameConfigs id s k.0) k
  call-InStep (force_stops fuel id) s w fits k =
      same-InStep s (force_stop_ward tools fuel id s).1 (force_stop-SameConfigs fuel id s k.0) k

  pub calls-InStep :
      (calls : List Call) (s : WardRegistry E M B V)
      → Writes tools
      → FitCalls calls
      → InStep tools s
      → InStep tools (run_calls tools calls s)
  unfolding run_calls
  calls-InStep [] s w fits k = k
  calls-InStep (call ∷ rest) s w fits k =
      calls-InStep rest (run_call tools call s) w fits.1 (call-InStep call s w fits.0 k)
