-- ===== src/WardManager/Landing.antt =====
-- The flight home that force_stop supervises.
use karshipta.WardManager.Sections.{stop_worker, clear_busy}
use karshipta.Common.{
  ◌||◌, inl, inr, ◌++◌, refl, none, ◌⊎◌, ltb→lt, ltb, zero, Option, false, arith, not, suc, some,
  ◌*◌, true, if_both, Bool, ◌≡◌, ◌<◌, ◌≤◌, ℕ, Text, ◌+◌,
}
use karshipta.WardManager.Lifecycle.{
  landing_timeout_ms, retired_list, fly_home, disarm_if_armed, retire, force_stop_retired,
  supervised, force_stop, is_link_down, take_offline, is_link_connected, Vehicles, Scene,
  await_landing, has_landed,
}

-- A poll of the loop takes a second or more; no reading sets the clock back.
abbrev pub Ticks : {V : Type 0} → Vehicles V → Type 0
Ticks {V} vehicles =
    ((v : V) → vehicles.now_ms v + 1000 ≤ vehicles.now_ms (vehicles.sleep_poll_interval v))
    × ((id : Text) (v : V) → vehicles.now_ms v ≤ vehicles.now_ms (vehicles.link_state id v).1)
    × ((id : Text) (v : V) → vehicles.now_ms v ≤ vehicles.now_ms (vehicles.is_in_air id v).1)
    × ((id : Text) (v : V) → vehicles.now_ms v ≤ vehicles.now_ms (vehicles.is_armed id v).1)

-- From the world `v`, the loop comes to look at the ward in the world `w`.
pub data Polled {V : Type 0} (vehicles : Vehicles V) (id : Text) : V → V → Type 0 where
  look_now : {v : V} → Polled vehicles id v v
  look_later :
      {v w : V}
      → Polled vehicles id (vehicles.sleep_poll_interval (has_landed vehicles id v).1) w
      → Polled vehicles id v w

module _ {V : Type 0} (vehicles : Vehicles V) (id : Text) where
  -- In the world `v` the ward is connected, then not in the air, then not armed.
  abbrev pub Landed : V → Type 0
  Landed v =
      let link = vehicles.link_state id v in
      let air = vehicles.is_in_air id link.1 in
      (is_link_connected link.0 ≡ true) × (air.0 ≡ false) × ((vehicles.is_armed id air.1).0 ≡ false)

  -- What `force_stop` has seen of a ward that it takes offline: not flying behind a link that is not
  -- down, or landed after a flight home.
  abbrev pub SeenSafe : V → Type 0
  SeenSafe v =
      let link = vehicles.link_state id v in
      let air = vehicles.is_in_air id link.1 in
      ((is_link_down link.0 ≡ false) × (air.0 ≡ false))
      ⊎ ((w : V) × Polled vehicles id (vehicles.return_to_launch id air.1).1 w × Landed w)

  has_landed-Landed : (v : V) → (has_landed vehicles id v).0 ≡ true → Landed v
  unfolding has_landed is_link_connected
  has_landed-Landed v h = ground arith

  has_landed-now_ms :
      (v : V) → Ticks vehicles → vehicles.now_ms v ≤ vehicles.now_ms (has_landed vehicles id v).1
  unfolding has_landed
  has_landed-now_ms v ticks =
      let link = vehicles.link_state id v in
      let air = vehicles.is_in_air id link.1 in
      let at_link = ticks.1 id v in
      let at_air = ticks.2 id link.1 in
      let at_armed = ticks.3 id air.1 in
      let later = λ (seen : Bool × V). vehicles.now_ms v ≤ vehicles.now_ms seen.1 in
      if_both later (not (is_link_connected link.0)) (λ _. at_link)
        (λ _. if_both later air.0 (λ _. omega arith) (λ _. omega arith))

  -- A loop that has fuel for each second up to its deadline, and for one more, ends.
  await_landing-ends :
      (fuel deadline : ℕ) (v : V)
      → Ticks vehicles
      → 0 < fuel
      → deadline + 1000 ≤ vehicles.now_ms v + fuel * 1000
      → (landed : Bool) × ((await_landing vehicles id fuel deadline v).0 ≡ some landed)
  unfolding await_landing
  await_landing-ends zero deadline v ticks some_fuel enough =
      let none_left : ⊥ = omega (arith, some_fuel) in absurd none_left
  await_landing-ends (suc fuel) deadline v ticks some_fuel enough =
      let seen = has_landed vehicles id v in
      let looked = has_landed-now_ms v ticks in
      let polled = ticks.0 seen.1 in
      let ends = λ (result : Option Bool × V). (landed : Bool) × (result.0 ≡ some landed) in
      if_both ends (ltb (vehicles.now_ms v) deadline)
        (λ before.
          if_both ends seen.0 (λ _. (true, refl))
            (λ _.
              let early = ltb→lt (vehicles.now_ms v) deadline before in
              await_landing-ends fuel deadline (vehicles.sleep_poll_interval seen.1) ticks
                (omega arith) (omega arith)))
        (λ _. (false, refl))

  -- The loop says that the ward is safe only when it has seen it so.
  await_landing-Landed :
      (fuel deadline : ℕ) (v : V)
      → (await_landing vehicles id fuel deadline v).0 ≡ some true
      → (w : V) × Polled vehicles id v w × Landed w
  unfolding await_landing
  await_landing-Landed zero deadline v h = cc
  await_landing-Landed (suc fuel) deadline v h =
      let seen = has_landed vehicles id v in
      let found = λ (result : Option Bool × V).
        result.0 ≡ some true → (w : V) × Polled vehicles id v w × Landed w in
      if_both found (ltb (vehicles.now_ms v) deadline)
        (λ _.
          if_both found seen.0 (λ landed _. (v, look_now, has_landed-Landed v landed))
            (λ _ later.
              let there =
                await_landing-Landed fuel deadline (vehicles.sleep_poll_interval seen.1) later in
              (there.0, look_later there.1, there.2)))
        (λ _ late. cc) h

module _ {E M V : Type 0} (vehicles : Vehicles V) where
  -- A ward that is taken offline.
  abbrev pub Offline : Scene E M V → Scene E M V → Type 0
  Offline s s' =
      (s'.ward ≡ record s.ward { busy = false; executor = none; running = false })
      × (s'.retired ≡ s.retired ++ retired_list s.ward.executor)

  abbrev pub Forced : E → Scene E M V → Option Bool × Scene E M V → Type 0
  Forced made s (none, s') = s'.ward ≡ record s.ward { busy = true; executor = none }
  Forced made s (some true, s') =
      Offline s s'
      × SeenSafe vehicles s.ward.config.ward_id
          (vehicles.join_executor s.ward.config.ward_id s.world)
  Forced made s (some false, s') =
      ((s.ward.busy ≡ true) × (s' ≡ s))
      ⊎ ((s'.ward ≡ record s.ward { busy = false; executor = some made })
          × (s'.retired ≡ s.retired ++ retired_list s.ward.executor))

  taken_offline :
      (made : E) (s : Scene E M V) (v : V)
      → SeenSafe vehicles s.ward.config.ward_id
          (vehicles.join_executor s.ward.config.ward_id s.world)
      → Forced made s (take_offline vehicles (record (retire vehicles s) { world = v }))
  unfolding take_offline retire disarm_if_armed
  taken_offline made s v safe =
      let armed = vehicles.is_armed s.ward.config.ward_id v in
      let ends = λ (disarm_result : Bool × Scene E M V). Forced made s (
        some true,
        record disarm_result.1 { ward = clear_busy (stop_worker disarm_result.1.ward) },
      ) in
      if_both ends armed.0 (λ _. ((refl, refl), safe)) (λ _. ((refl, refl), safe))

  supervised-Forced :
      (made : E) (s : Scene E M V) (v : V) (result : Option Bool × V)
      → (result.0 ≡ some true
          → SeenSafe vehicles s.ward.config.ward_id
              (vehicles.join_executor s.ward.config.ward_id s.world))
      → Forced made s (supervised vehicles made (record (retire vehicles s) { world = v }) result)
  unfolding supervised retire
  supervised-Forced made s v (none, w) safe = refl
  supervised-Forced made s v (some true, w) safe = taken_offline made s w (safe refl)
  supervised-Forced made s v (some false, w) safe = inr (refl, refl)

  pub force_stop-Forced :
      (fuel : ℕ) (made : E) (s : Scene E M V) → Forced made s (force_stop vehicles fuel made s)
  unfolding force_stop force_stop_retired fly_home retire
  force_stop-Forced fuel made s =
      let id = s.ward.config.ward_id in
      let link = vehicles.link_state id (vehicles.join_executor id s.world) in
      let air = vehicles.is_in_air id link.1 in
      let home = (vehicles.return_to_launch id air.1).1 in
      let deadline = vehicles.now_ms home + landing_timeout_ms in
      let ends = Forced made s in
      if_both ends s.ward.busy (λ busy. inl (busy, refl))
        (λ _.
          if_both ends (air.0 || is_link_down link.0)
            (λ _.
              supervised-Forced made s home (await_landing vehicles id fuel deadline home)
                (λ landed. inr (await_landing-Landed vehicles id fuel deadline home landed)))
            (λ still. taken_offline made s air.1 (inl (ground arith, ground arith))))

  supervised-ends :
      (made : E) (s : Scene E M V) (result : Option Bool × V) (landed : Bool)
      → result.0 ≡ some landed
      → (stopped : Bool) × ((supervised vehicles made s result).0 ≡ some stopped)
  unfolding supervised take_offline
  supervised-ends made s (none, w) landed h = cc
  supervised-ends made s (some true, w) landed h = (true, refl)
  supervised-ends made s (some false, w) landed h = (false, refl)

  -- The fuel is one poll more than the 120 seconds of the deadline.
  force_stop-ends :
      (made : E) (s : Scene E M V)
      → Ticks vehicles
      → (stopped : Bool) × ((force_stop vehicles 121 made s).0 ≡ some stopped)
  unfolding force_stop force_stop_retired fly_home retire take_offline landing_timeout_ms
  force_stop-ends made s ticks =
      let id = s.ward.config.ward_id in
      let link = vehicles.link_state id (vehicles.join_executor id s.world) in
      let air = vehicles.is_in_air id link.1 in
      let home = (vehicles.return_to_launch id air.1).1 in
      let deadline = vehicles.now_ms home + landing_timeout_ms in
      let back : Scene E M V = record (retire vehicles s) { world = home } in
      let ended =
        await_landing-ends vehicles id 121 deadline home ticks (omega arith) (omega arith) in
      let ends =
        λ (result : Option Bool × Scene E M V). (stopped : Bool) × (result.0 ≡ some stopped) in
      if_both ends s.ward.busy (λ _. (false, refl))
        (λ _.
          if_both ends (air.0 || is_link_down link.0)
            (λ _.
              supervised-ends made back (await_landing vehicles id 121 deadline home) ended.0
                ended.1)
            (λ _. (true, refl)))

  -- With fuel for each second of the 120 and one more, and a clock that a poll moves on by a second or
  -- more, `force_stop` ends. When it says true, its executor was joined and then the ward was seen
  -- either not in the air behind a link that was not down or, on a poll after the return home was
  -- commanded, connected, not in the air and not armed; it then has no executor, no worker and is not
  -- busy. When it says false, the ward was busy and nothing is changed, or it has a new executor, is
  -- not busy, and is still running if it was.
  pub force_stop_lem :
      (made : E) (s : Scene E M V)
      → Ticks vehicles
      → ((stopped : Bool) × ((force_stop vehicles 121 made s).0 ≡ some stopped))
        × Forced made s (force_stop vehicles 121 made s)
  force_stop_lem made s ticks = (force_stop-ends made s ticks, force_stop-Forced 121 made s)
