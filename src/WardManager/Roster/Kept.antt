-- ===== src/WardManager/Roster/Kept.antt =====
-- The registry stays well-formed, and its file is what would be written of it now.
use karshipta.Common.{
  subst, is_some-none, ◌==◌, some, if◌then◌else◌, is_some, ◌⊎◌, is_empty, Option, text, ℕ, inr,
  arith, none, true, ◌^◌, Bool, Text, List, ◌≡◌, ◌<◌, [], ◌∷◌, if_both, refl, sym, ap, ◌∙◌, lookup,
}
use karshipta.WardManager.Roster.{
  emplace_ward, ManagedWard, invalid_argument, entry_node, refused, render, entry_nodes,
  persist_locked, added, admit, add_ward_impl, WardConfig, Tools, WardRegistry, Added,
  system_id_holder,
}
use karshipta.WardManager.Roster.Configs.{
  is_named, holder_none, zero-Apart, is_some-configs, Apart, Accepts, configs, IsRoster,
}
use karshipta.WardManager.Roster.Calls.{
  force_stop_ward, stop_managed_ward, start_ward, remove_ward_impl,
}

-- The calls that change the registry or one of its wards.
pub data Call : Type 0 where
  adds : WardConfig → Call
  removes starts stops : Text → Call
  force_stops : ℕ → Text → Call

-- What the requests give is a 32-bit number, and a class that has a name.
abbrev pub FitsCall : Call → Type 0
FitsCall (adds cfg) = (cfg.system_id < 2 ^ 32) × (is_named cfg.ward_class ≡ true)
FitsCall (removes id) = Unit {0}
FitsCall (starts id) = Unit {0}
FitsCall (stops id) = Unit {0}
FitsCall (force_stops fuel id) = Unit {0}

abbrev pub FitCalls : List Call → Type 0
FitCalls [] = Unit {0}
FitCalls (call ∷ rest) = FitsCall call × FitCalls rest

unfoldable pub added_or : {R : Type 0} → R → Added R → R
added_or s (added s') = s'
added_or s (refused error) = s
added_or s (invalid_argument what) = s

module _ {E M N B V : Type 0} (tools : Tools E M N B V) where
  unfoldable pub run_call : Call → WardRegistry E M B V → WardRegistry E M B V
  unfolding added_or add_ward_impl remove_ward_impl start_ward stop_managed_ward force_stop_ward
  run_call (adds cfg) s = added_or s (add_ward_impl tools cfg true s)
  run_call (removes id) s = (remove_ward_impl tools id s).1
  run_call (starts id) s = (start_ward tools id s).1
  run_call (stops id) s = (stop_managed_ward tools id s).1
  run_call (force_stops fuel id) s = (force_stop_ward tools fuel id s).1

  unfoldable pub run_calls : List Call → WardRegistry E M B V → WardRegistry E M B V
  unfolding run_call
  run_calls [] s = s
  run_calls (call ∷ rest) s = run_calls rest (run_call call s)

  abbrev pub nodes_of : List (Text × WardConfig) → List N
  nodes_of [] = []
  nodes_of ((id, cfg) ∷ rest) = entry_node tools cfg ∷ nodes_of rest

  entry_nodes-configs :
      (wards : List (Text × ManagedWard E M)) → entry_nodes tools wards ≡ nodes_of (configs wards)
  unfolding entry_nodes
  entry_nodes-configs [] = refl
  entry_nodes-configs ((id, ward) ∷ rest) =
      ap (λ nodes. entry_node tools ward.config ∷ nodes) (entry_nodes-configs rest)

  abbrev pub render_configs : List (Text × WardConfig) → B
  render_configs entries =
      tools.yaml.emit
        (tools.yaml.map_node ((text "wards", tools.yaml.sequence_node (nodes_of entries)) ∷ []))

  -- The file has the configurations of the wards, or there is neither file nor ward.
  abbrev pub Synced : WardRegistry E M B V → Type 0
  Synced s =
      ((configs s.managed_wards ≡ []) × (s.stored ≡ none))
      ⊎ (s.stored ≡ some (render_configs (configs s.managed_wards)))

  -- Each write to the file gets through.
  abbrev pub Writes : Type 0
  Writes = (tools.has_path ≡ true) × ((v : V) → tools.gets_through v ≡ true)

  abbrev pub InStep : WardRegistry E M B V → Type 0
  InStep s = IsRoster (configs s.managed_wards) × Synced s

  pub persist-Synced : (s : WardRegistry E M B V) → Writes → Synced (persist_locked tools s)
  unfolding persist_locked render
  persist-Synced s w =
      rw (w.0, w.1 s.world)
        (inr (
          ap
            (λ nodes. some (
              tools.yaml.emit
                (tools.yaml.map_node ((text "wards", tools.yaml.sequence_node nodes) ∷ []))))
            (entry_nodes-configs s.managed_wards)))

  pub persist-managed_wards :
      (s : WardRegistry E M B V) → (persist_locked tools s).managed_wards ≡ s.managed_wards
  unfolding persist_locked
  persist-managed_wards s = ground arith

  -- What `add_ward_impl` gives, by what it takes.
  abbrev pub AddPost :
      WardConfig → Bool → WardRegistry E M B V → Added (WardRegistry E M B V) → Type 0
  AddPost cfg flag s (added s') =
      Accepts cfg (configs s.managed_wards) × (s' ≡ emplace_ward tools cfg flag s)
  AddPost cfg flag s (refused error) = Unit {0}
  AddPost cfg flag s (invalid_argument what) = Unit {0}

  admit-AddPost :
      (cfg : WardConfig) (flag : Bool) (holder : Option Text) (s : WardRegistry E M B V)
      → (holder ≡ none → Accepts cfg (configs s.managed_wards))
      → AddPost cfg flag s (admit tools cfg flag holder s)
  unfolding admit
  admit-AddPost cfg flag none s accepts = (accepts refl, refl)
  admit-AddPost cfg flag (some holder) s accepts = tt

  free_system_id :
      (cfg : WardConfig) (wards : List (Text × ManagedWard E M))
      → (if cfg.system_id == 0 then none else system_id_holder cfg.system_id wards) ≡ none
      → Apart cfg.system_id (configs wards)
  free_system_id cfg wards =
      if_both (λ (holder : Option Text). holder ≡ none → Apart cfg.system_id (configs wards))
        (cfg.system_id == 0)
        (λ zero_id _. subst (λ n. Apart n (configs wards)) (ground arith) (zero-Apart wards))
        (λ _ free. holder_none cfg.system_id wards free)

  pub add_ward_impl-AddPost :
      (cfg : WardConfig) (flag : Bool) (s : WardRegistry E M B V)
      → AddPost cfg flag s (add_ward_impl tools cfg flag s)
  unfolding add_ward_impl
  add_ward_impl-AddPost cfg flag s =
      let post = AddPost cfg flag s in
      let wards = s.managed_wards in
      if_both post (is_empty cfg.ward_id) (λ _. tt)
        (λ named.
          if_both post (is_empty cfg.connection_url) (λ _. tt)
            (λ with_url.
              if_both post (is_some (lookup cfg.ward_id wards)) (λ _. tt)
                (λ absent.
                  admit-AddPost cfg flag
                    (if cfg.system_id == 0 then none else system_id_holder cfg.system_id wards) s
                    (λ free. (
                      named,
                      with_url,
                      is_some-none (lookup cfg.ward_id (configs wards))
                          (sym (is_some-configs cfg.ward_id wards) ∙ absent),
                      free_system_id cfg wards free,
                    )))))
