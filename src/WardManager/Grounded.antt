-- ===== src/WardManager/Grounded.antt =====
-- What must have been seen of a ward that is stopped or removed, and what is left of one that is not.
use karshipta.Common.{
  not, inl, refl, inr, text, if_both, if◌then◌else◌, Bool, true, none, ◌++◌, false, some, ◌⊎◌,
  Option, ◌≡◌, Text,
}
use karshipta.WardManager.Lifecycle.{
  stop_scene, take_down, give_back, disarm_if_armed, transition, retire, finish,
  verify_grounded_and_disarm, is_disarmed, retired_list, is_link_down, Vehicles, Scene,
}

module _ {V : Type 0} (vehicles : Vehicles V) (id : Text) where
  abbrev pub Disarmed : V → V → Type 0
  Disarmed v v' =
      let armed = vehicles.is_armed id v in
      let outcome = vehicles.disarm id armed.1 in
      ((armed.0 ≡ false) × (v' ≡ armed.1))
      ⊎ ((armed.0 ≡ true) × (is_disarmed outcome.0 ≡ true) × (v' ≡ outcome.1))

  -- From the world `v` to `v'`: the link is not down, then the ward is not in the air, then it is not
  -- armed or is disarmed.
  abbrev pub Grounded : V → V → Type 0
  Grounded v v' =
      let link = vehicles.link_state id v in
      let air = vehicles.is_in_air id link.1 in
      (is_link_down link.0 ≡ false) × (air.0 ≡ false) × Disarmed air.1 v'

module _ {E M V : Type 0} (vehicles : Vehicles V) where
  -- The ward's part of a transition that ends well; in the world `v` its guards had passed.
  abbrev pub TakenDown : V → Scene E M V → Scene E M V → Type 0
  TakenDown v s s' =
      Grounded vehicles s.ward.config.ward_id (vehicles.join_executor s.ward.config.ward_id v)
        s'.world
      × (s'.ward ≡ record s.ward { busy = false; executor = none; running = false })
      × (s'.retired ≡ s.retired ++ retired_list s.ward.executor)

  -- Of one that does not: the ward is as it was, or has a new executor.
  abbrev pub Kept : E → Scene E M V → Scene E M V → Type 0
  Kept made s s' =
      ((s'.ward ≡ s.ward) × (s'.retired ≡ s.retired))
      ⊎ ((s'.ward ≡ record s.ward { busy = false; executor = some made })
          × (s'.retired ≡ s.retired ++ retired_list s.ward.executor))

  abbrev pub Outcome : E → V → Scene E M V → Option Text × Scene E M V → Type 0
  Outcome made v s (none, s') = TakenDown v s s'
  Outcome made v s (some error, s') = Kept made s s'

  -- The world once the guards of `stop` have looked at the ward.
  abbrev pub guarded : Scene E M V → V
  guarded s =
      let id = s.ward.config.ward_id in (vehicles.is_in_air id (vehicles.link_state id s.world).1).1

module _ {E M V : Type 0} (vehicles : Vehicles V) (made : E) where
  -- A transition that takes the vehicle down to the world `w`, once it is known not to be flying.
  disarmed-Outcome :
      (v : V) (s t : Scene E M V)
      → ((b : Bool) (w : V)
          → (b ≡ true → Disarmed vehicles t.ward.config.ward_id t.world w)
          → Outcome vehicles made v s (
              finish vehicles (
                if b
                then (none, record t { world = w })
                else give_back vehicles made (text "failed to disarm") (record t { world = w }))))
      → Outcome vehicles made v s (
          finish vehicles (
            let safe = disarm_if_armed vehicles t in
            if safe.0
            then (none, safe.1)
            else give_back vehicles made (text "failed to disarm") safe.1))
  unfolding disarm_if_armed
  disarmed-Outcome v s t step =
      let armed = vehicles.is_armed t.ward.config.ward_id t.world in
      let outcome = vehicles.disarm t.ward.config.ward_id armed.1 in
      if_both
        (λ (safe : Bool × Scene E M V). Outcome vehicles made v s (
          finish vehicles (
            if safe.0
            then (none, safe.1)
            else give_back vehicles made (text "failed to disarm") safe.1)))
        armed.0
        (λ was_armed. step (is_disarmed outcome.0) outcome.1 (λ now. inr (was_armed, now, refl)))
        (λ unarmed. step true armed.1 (λ now. inl (unarmed, refl)))

  transition-Outcome :
      (s : Scene E M V) (v : V)
      → Outcome vehicles made v s (transition vehicles made (record s { world = v }))
  unfolding transition verify_grounded_and_disarm finish retire give_back
  transition-Outcome s v =
      let id = s.ward.config.ward_id in
      let link = vehicles.link_state id (vehicles.join_executor id v) in
      let air = vehicles.is_in_air id link.1 in
      let ends = λ (result : Option Text × Scene E M V).
        Outcome vehicles made v s (finish vehicles result) in
      if_both ends (is_link_down link.0) (λ _. inr (refl, refl))
        (λ up.
          if_both ends air.0 (λ _. inr (refl, refl))
            (λ grounded.
              disarmed-Outcome v s (record (retire vehicles s) { world = air.1 })
                (λ b w safe.
                  if_both ends b (λ now. ((up, grounded, safe now), refl, refl))
                    (λ _. inr (refl, refl)))))

  -- `stop` takes a ward offline only after its executor was joined and, then, the link was not down,
  -- the ward not in the air, and not armed or disarmed with success, each seen in this order; the ward
  -- then has no executor and no worker. When it reports an error, the ward is as it was but for a new
  -- executor, and not busy on its account.
  pub stop_scene-Outcome :
      (s : Scene E M V) → Outcome vehicles made (guarded vehicles s) s (stop_scene vehicles made s)
  unfolding stop_scene
  stop_scene-Outcome s =
      let ends = Outcome vehicles made (guarded vehicles s) s in
      let id = s.ward.config.ward_id in
      let link = vehicles.link_state id s.world in
      let air = vehicles.is_in_air id link.1 in
      if_both ends s.ward.busy (λ _. inl (refl, refl))
        (λ _.
          if_both ends (not s.ward.running) (λ _. inl (refl, refl))
            (λ _.
              if_both ends (is_link_down link.0) (λ _. inl (refl, refl))
                (λ _.
                  if_both ends air.0 (λ _. inl (refl, refl)) (λ _. transition-Outcome s air.1))))

  -- The same of the removal of a ward, running or not: it is taken out of the registry only when this
  -- part of it reports no error.
  pub take_down-Outcome :
      (s : Scene E M V) → Outcome vehicles made (guarded vehicles s) s (take_down vehicles made s)
  unfolding take_down
  take_down-Outcome s =
      let ends = Outcome vehicles made (guarded vehicles s) s in
      let id = s.ward.config.ward_id in
      let link = vehicles.link_state id s.world in
      let air = vehicles.is_in_air id link.1 in
      if_both ends s.ward.busy (λ _. inl (refl, refl))
        (λ _.
          if_both ends (is_link_down link.0) (λ _. inl (refl, refl))
            (λ _. if_both ends air.0 (λ _. inl (refl, refl)) (λ _. transition-Outcome s air.1)))
