-- ===== src/WardManager/Roster/Restart.antt =====
-- The registry is read back from its own file.
use karshipta.WardManager.Roster.Histories.{calls-InStep}
use karshipta.WardManager.Roster.Configs.{
  is_named, holder-Apart, is_some-configs, configs-insert, Differ, Differ-sym, Apart, configs,
  Accepts, IsRoster, IsConfig,
}
use karshipta.Common.{
  inl, inr, insert-last, insert, ◌==◌, is_some, arith, AllEntries-last, text_lt-eq, text_eq, none,
  is_empty, false, true, text_lt, ◌^◌, ◌+◌, Option, ◌<◌, AllEntries, some, List, Text, ◌≡◌, ℕ, [],
  ◌∷◌, ◌++◌, if_both, refl, sym, ap, ◌∙◌, lookup, subst, length, append_assoc, append-nil,
}
use karshipta.WardManager.Roster.Kept.{
  run_calls, FitCalls, Writes, Call, InStep, nodes_of, render_configs,
}
use karshipta.WardManager.Roster.{
  new_ward, emplace_ward, entry_node, WardClass, WardConfig, admit, add_ward_impl, Tools,
  WardRegistry, added,
}
use karshipta.WardManager.Roster.Loading.{
  stored_entries, load_found, load_persisted, class_or, text_or_empty, as_text_at, config_of,
  count_added, Loaded, loaded, threw, load_entries, load_entry, load_config,
}

-- A tree is read as it was written, by yaml-cpp and by protobuf's names of an enumeration.
abbrev pub ReadsBack : {E M N B V : Type 0} → Tools E M N B V → Type 0
ReadsBack {E} {M} {N} {B} {V} tools =
    ((node : N) → tools.yaml.parse (tools.yaml.emit node) ≡ some node)
    × ((key : Text) (entries : List (Text × N))
        → tools.yaml.child key (tools.yaml.map_node entries) ≡ lookup key entries)
    × ((nodes : List N) → tools.yaml.elements (tools.yaml.sequence_node nodes) ≡ some nodes)
    × ((s : Text) → tools.yaml.as_text (tools.yaml.text_node s) ≡ some s)
    × ((n : ℕ) → n < 2 ^ 32 → tools.yaml.as_unsigned (tools.yaml.unsigned_node n) ≡ some n)
    × ((c : WardClass)
        → is_named c ≡ true
        → (is_empty (tools.class_name c) ≡ false)
          × (tools.parse_class (tools.class_name c) ≡ some c))

-- What is before an entry of a registry, and what is after it.
before_entry :
    (id : Text) (cfg : WardConfig) (done rest : List (Text × WardConfig))
    → IsRoster (done ++ (id, cfg) ∷ rest)
    → AllEntries (λ key value. text_lt key id ≡ true) done
      × Apart cfg.system_id done
      × IsConfig id cfg
before_entry id cfg [] rest r = (tt, tt, r.1.0)
before_entry id cfg ((key, value) ∷ done) rest r =
    let later = before_entry id cfg done rest (r.0.1, r.1.1, r.2.1) in
    (
      (AllEntries-last (λ k v. text_lt key k ≡ true) id cfg done rest r.0.0, later.0),
      (
        Differ-sym cfg.system_id value.system_id
            (AllEntries-last (λ k v. Differ v.system_id value.system_id) id cfg done rest r.2.0),
        later.1,
      ),
      later.2,
    )

absent_before :
    (id : Text) (done : List (Text × WardConfig))
    → AllEntries (λ key value. text_lt key id ≡ true) done
    → lookup id done ≡ none
unfolding lookup
absent_before id [] all = refl
absent_before id ((key, value) ∷ done) all =
    let apart = text_lt-eq key id all.0 in rw apart (absent_before id done all.1)

module _ {E M N B V : Type 0} (tools : Tools E M N B V) where
  config_of-entry_node :
      (id : Text) (cfg : WardConfig)
      → ReadsBack tools
      → IsConfig id cfg
      → config_of tools (entry_node tools cfg) ≡ some cfg
  unfolding config_of as_text_at text_or_empty class_or entry_node lookup text_eq
  config_of-entry_node id cfg laws c = simp (
    laws.1,
    laws.3,
    laws.4 cfg.system_id c.3,
    (laws.5 cfg.ward_class c.4).0,
    (laws.5 cfg.ward_class c.4).1,
  )

  add_accepted :
      (id : Text) (cfg : WardConfig) (s : WardRegistry E M B V)
      → IsConfig id cfg
      → Accepts cfg (configs s.managed_wards)
      → add_ward_impl tools cfg false s ≡ added (emplace_ward tools cfg false s)
  unfolding add_ward_impl admit
  add_accepted id cfg s c a =
      let absent : is_some (lookup cfg.ward_id s.managed_wards) ≡ false =
        is_some-configs cfg.ward_id s.managed_wards ∙ ap is_some a.2 in
      rw (a.0, a.1, absent)
        (if_both
          (λ (holder : Option Text).
            admit tools cfg false holder s ≡ added (emplace_ward tools cfg false s))
          (cfg.system_id == 0) (λ _. refl)
          (λ named. rw (holder-Apart cfg.system_id s.managed_wards (ground arith) a.3) refl))

  -- The registry after the entries of a file: what it had, and they.
  abbrev Grown :
      ℕ
      → List (Text × WardConfig)
      → List (Text × WardConfig)
      → Option B
      → Loaded (WardRegistry E M B V)
      → Type 0
  Grown n done rest stored (loaded m s) =
      (m ≡ n + length rest) × (configs s.managed_wards ≡ done ++ rest) × (s.stored ≡ stored)
  Grown n done rest stored (threw what s) = ⊥

  Grown-step :
      (n : ℕ) (id : Text) (cfg : WardConfig) (done done' rest : List (Text × WardConfig))
      (stored : Option B) (result : Loaded (WardRegistry E M B V))
      → done' ≡ done ++ (id, cfg) ∷ []
      → Grown (n + 1) done' rest stored result
      → Grown n done ((id, cfg) ∷ rest) stored result
  Grown-step n id cfg done done' rest stored (loaded m s) e g = (
    omega (arith, g.0),
    g.1 ∙ ap (λ front. front ++ rest) e ∙ append_assoc done ((id, cfg) ∷ []) rest,
    g.2,
  )
  Grown-step n id cfg done done' rest stored (threw what s) e g = g

  one_entry :
      (n : ℕ) (id : Text) (cfg : WardConfig) (s : WardRegistry E M B V)
      → ReadsBack tools
      → IsConfig id cfg
      → Accepts cfg (configs s.managed_wards)
      → load_entry tools (entry_node tools cfg) (loaded n s)
        ≡ loaded (n + 1) (emplace_ward tools cfg false s)
  unfolding load_entry load_config count_added
  one_entry n id cfg s laws c a =
      ap (λ found. load_config tools found n s) (config_of-entry_node id cfg laws c)
      ∙ ap (λ result. count_added n s result) (add_accepted id cfg s c a)

  emplaced-configs :
      (id : Text) (cfg : WardConfig) (s : WardRegistry E M B V)
      → cfg.ward_id ≡ id
      → AllEntries (λ key value. text_lt key id ≡ true) (configs s.managed_wards)
      → configs (emplace_ward tools cfg false s).managed_wards
        ≡ configs s.managed_wards ++ (id, cfg) ∷ []
  unfolding emplace_ward new_ward
  emplaced-configs id cfg s e before =
      configs-insert cfg.ward_id (new_ward tools cfg) s.managed_wards
      ∙ ap (λ key. insert key cfg (configs s.managed_wards)) e
      ∙ insert-last id cfg (configs s.managed_wards) before

  entries-Grown :
      (n : ℕ) (rest : List (Text × WardConfig)) (s : WardRegistry E M B V)
      → ReadsBack tools
      → IsRoster (configs s.managed_wards ++ rest)
      → Grown n
          (configs s.managed_wards)
          rest
          s.stored
          (load_entries tools (nodes_of tools rest) (loaded n s))
  unfolding load_entries emplace_ward
  entries-Grown n [] s laws r = (omega arith, sym (append-nil (configs s.managed_wards)), refl)
  entries-Grown n ((id, cfg) ∷ rest) s laws r =
      let done = configs s.managed_wards in
      let here = before_entry id cfg done rest r in
      let free : lookup cfg.ward_id done ≡ none =
        ap (λ key. lookup key done) here.2.0 ∙ absent_before id done here.0 in
      let accepts : Accepts cfg done = (here.2.1, here.2.2, free, here.1) in
      let s1 = emplace_ward tools cfg false s in
      let front = emplaced-configs id cfg s here.2.0 here.0 in
      let whole : configs s1.managed_wards ++ rest ≡ done ++ (id, cfg) ∷ rest =
        ap (λ es. es ++ rest) front ∙ append_assoc done ((id, cfg) ∷ []) rest in
      let later = entries-Grown (n + 1) rest s1 laws (subst IsRoster (sym whole) r) in
      subst
        (λ so_far.
          Grown n done ((id, cfg) ∷ rest) s.stored
            (load_entries tools (nodes_of tools rest) so_far))
        (sym (one_entry n id cfg s laws here.2 accepts))
        (Grown-step n id cfg done (configs s1.managed_wards) rest s.stored
          (load_entries tools (nodes_of tools rest) (loaded (n + 1) s1)) front later)

  -- The registry of a process that starts again, over the same file.
  abbrev pub restarted : V → Option B → WardRegistry E M B V
  restarted v stored = record { managed_wards = []; world = v; retired = []; stored = stored }

  abbrev pub Restored : WardRegistry E M B V → Loaded (WardRegistry E M B V) → Type 0
  Restored s (loaded n s') =
      (n ≡ length (configs s.managed_wards))
      × (configs s'.managed_wards ≡ configs s.managed_wards)
      × InStep tools s'
  Restored s (threw what s') = ⊥

  Grown-Restored :
      (s : WardRegistry E M B V) (stored : Option B) (result : Loaded (WardRegistry E M B V))
      → IsRoster (configs s.managed_wards)
      → stored ≡ some (render_configs tools (configs s.managed_wards))
      → Grown 0 [] (configs s.managed_wards) stored result
      → Restored s result
  Grown-Restored s stored (loaded n s') r e g = (
    omega (arith, g.0),
    g.1,
    (
      subst IsRoster (sym g.1) r,
      inr (g.2 ∙ e ∙ ap (λ es. some (render_configs tools es)) (sym g.1)),
    ),
  )
  Grown-Restored s stored (threw what s') r e g = g

  restart-Restored :
      (s : WardRegistry E M B V) (v : V)
      → tools.has_path ≡ true
      → ReadsBack tools
      → InStep tools s
      → Restored s (load_persisted tools (restarted v s.stored))
  unfolding load_persisted load_found stored_entries text_eq
  restart-Restored s v path laws (r, inl nothing) =
      rw (path, nothing.1)
        (ap length (sym nothing.0), sym nothing.0, ((tt, tt, tt), inl (refl, refl)))
  restart-Restored s v path laws (r, inr written) =
      let entries = configs s.managed_wards in
      let found : stored_entries tools s.stored ≡ some (nodes_of tools entries) =
        ap (stored_entries tools) written ∙ simp (laws.0, laws.1, laws.2) in
      rw path (
        subst (λ o. Restored s (load_found tools o (restarted v s.stored))) (sym found)
          (Grown-Restored s s.stored
            (load_entries tools (nodes_of tools entries) (loaded 0 (restarted v s.stored))) r
            written (entries-Grown 0 entries (restarted v s.stored) laws r)))

  -- Let the registry be well-formed and in step with its file, let every write to the file get through,
  -- and let yaml-cpp read what it has written, and protobuf the names of the classes that have one. Then,
  -- whatever wards of such classes are added, removed, started and stopped, a process that starts again
  -- over the same file restores a registry of the same configurations, none skipped and none more: in
  -- the order of the ids, each under its own, no two of one autopilot, and in step with its file again.
  pub restart-calls :
      (calls : List Call) (s : WardRegistry E M B V) (v : V)
      → Writes tools
      → ReadsBack tools
      → FitCalls calls
      → InStep tools s
      → Restored
          (run_calls tools calls s)
          (load_persisted tools (restarted v (run_calls tools calls s).stored))
  restart-calls calls s v w laws fit k =
      restart-Restored (run_calls tools calls s) v w.0 laws (calls-InStep tools calls s w fit k)
