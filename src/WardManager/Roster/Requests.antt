-- ===== src/WardManager/Roster/Requests.antt =====
-- What a reply to the console's request for a new ward means.
use karshipta.WardManager.Lifecycle.{Scene}
use karshipta.WardManager.Roster.Kept.{add_ward_impl-AddPost, AddPost}
use karshipta.WardManager.Sections.{executor_or, start_worker}
use karshipta.Common.{
  lookup-insert_self, none, ◌||◌, inr, ◌⊎◌, ◌≡◌, inl, some, text, false, List, true, Bool, Option,
  Text, [], ◌∷◌, if_both, refl, ap, lookup,
}
use karshipta.WardManager.Roster.{
  ward_added, emplace_ward, RosterEvent, ManagedWard, WardConfig, add_ward_impl, ConfigAck, Tools,
  WardRegistry, Added, added, refused, invalid_argument,
}
use karshipta.WardManager.Roster.Loading.{
  announced, reply, start_added, roll_back, handle_add_ward, AddWard,
}
use karshipta.WardManager.Roster.Calls.{
  remove_ward_impl, scene_of, start_ward, on_ward, put_back, start_scene,
}

module _ {E M N B V : Type 0} (tools : Tools E M N B V) where
  -- The ward is there, with a worker and an executor.
  abbrev pub IsRunning : Text → WardRegistry E M B V → Type 0
  IsRunning id s =
      (ward : ManagedWard E M) × (lookup id s.managed_wards ≡ some ward)
      × (ward.running ≡ true)
      × ((executor : E) × (ward.executor ≡ some executor))

  found-IsRunning :
      (id : Text) (found : Option (ManagedWard E M)) (s : WardRegistry E M B V)
      → (on_ward false (start_scene tools) id found s).0 ≡ true
      → IsRunning id (on_ward false (start_scene tools) id found s).1
  unfolding on_ward put_back start_scene start_worker scene_of
  found-IsRunning id none s e = cc
  found-IsRunning id (some ward) s e =
      if_both
        (λ (result : Bool × Scene E M V). result.0 ≡ true → IsRunning id (put_back id result s).1)
        (ward.busy || ward.running) (λ _ started. cc)
        (λ _ _. (
          start_worker (tools.make_executor ward.config) ward,
          lookup-insert_self id (start_worker (tools.make_executor ward.config) ward)
              s.managed_wards,
          refl,
          (executor_or (tools.make_executor ward.config) ward.executor, refl),
        ))
        e

  abbrev pub Answer :
      (WardRegistry E M B V → WardRegistry E M B V)
      → WardConfig
      → WardRegistry E M B V
      → Option Text × WardRegistry E M B V
      → Type 0
  Answer others cfg s (none, s') = IsRunning cfg.ward_id s'
  Answer others cfg s (some error, s') =
      (s' ≡ s)
      ⊎ (s'
          ≡ (remove_ward_impl tools cfg.ward_id
              (start_ward tools cfg.ward_id (others (emplace_ward tools cfg true s))).1).1)

  rolled-Answer :
      (others : WardRegistry E M B V → WardRegistry E M B V) (cfg : WardConfig)
      (s : WardRegistry E M B V) (result : Bool × WardRegistry E M B V)
      → result ≡ start_ward tools cfg.ward_id (others (emplace_ward tools cfg true s))
      → (result.0 ≡ true → IsRunning cfg.ward_id result.1)
      → Answer others cfg s (roll_back tools cfg.ward_id result)
  unfolding roll_back
  rolled-Answer others cfg s (true, s') e runs = runs refl
  rolled-Answer others cfg s (false, s') e runs =
      inr (ap (λ result. (remove_ward_impl tools cfg.ward_id result.1).1) e)

  added-Answer :
      (others : WardRegistry E M B V → WardRegistry E M B V) (cfg : WardConfig)
      (s : WardRegistry E M B V) (result : Added (WardRegistry E M B V))
      → AddPost tools cfg true s result
      → Answer others cfg s (start_added tools others cfg.ward_id s result)
  unfolding start_added start_ward
  added-Answer others cfg s (added s') post =
      let began = others s' in
      rolled-Answer others cfg s (start_ward tools cfg.ward_id began)
        (ap (λ t. start_ward tools cfg.ward_id (others t)) post.1)
        (found-IsRunning cfg.ward_id (lookup cfg.ward_id began.managed_wards) began)
  added-Answer others cfg s (refused error) post = inl refl
  added-Answer others cfg s (invalid_argument what) post = inl refl

  -- The reply and the announcement, with the registry after them.
  abbrev pub Handled :
      (WardRegistry E M B V → WardRegistry E M B V)
      → AddWard
      → WardRegistry E M B V
      → (ConfigAck × List RosterEvent) × WardRegistry E M B V
      → Type 0
  Handled others request s ((ack, events), s') =
      (ack.ward_id ≡ request.config.ward_id)
      × (ack.request_id ≡ request.request_id)
      × (((ack.accepted ≡ true)
            × (events ≡ ward_added request.config.ward_id ∷ [])
            × IsRunning request.config.ward_id s')
          ⊎ ((ack.accepted ≡ false)
              × (events ≡ [])
              × ((error : Text) × Answer others request.config s (some error, s'))))

  answer-Handled :
      (others : WardRegistry E M B V → WardRegistry E M B V) (request : AddWard)
      (s : WardRegistry E M B V) (result : Option Text × WardRegistry E M B V)
      → Answer others request.config s result
      → Handled others request s (
        (
          reply request.request_id request.config.ward_id
              (text "connection attempt underway")
              result.0,
          announced (ward_added request.config.ward_id) result.0,
        ),
        result.1,
      )
  unfolding reply announced
  answer-Handled others request s (none, s') a = (refl, refl, inl (refl, refl, a))
  answer-Handled others request s (some error, s') a = (refl, refl, inr (refl, refl, (error, a)))

  -- Whatever other threads do between the registration and the start: the request is accepted, and the
  -- ward announced, only when the ward is registered, started and has an executor at the end. A
  -- rejected one is not announced, and it leaves the registry as it was, or, when the start failed, the
  -- removal of the ward was tried.
  pub handle_add_ward-Handled :
      (others : WardRegistry E M B V → WardRegistry E M B V) (request : AddWard)
      (s : WardRegistry E M B V)
      → Handled others request s (handle_add_ward tools others request s)
  unfolding handle_add_ward
  handle_add_ward-Handled others request s =
      let result = add_ward_impl tools request.config true s in
      answer-Handled others request s (start_added tools others request.config.ward_id s result) (
        added-Answer others request.config s result
          (add_ward_impl-AddPost tools request.config true s))
