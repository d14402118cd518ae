-- ===== src/WardManager/Locks/Exclusive.antt =====
-- `busy` is a lock: one thread at most holds it, and the executor that it took along is not destroyed.
use karshipta.Common.{
  ◌||◌, not, text, if◌then◌else◌, inr, inl, Bool-cases, sym, zero, suc, subst, refl, arith, [],
  none, true, ◌<◌, ◌∷◌, some, false, ◌+◌, List, ◌≡◌,
}
use karshipta.WardManager.Sections.{claim, start_worker, retire_executor, claim_with, executor_or}
use karshipta.WardManager.Locks.{
  claim, start_worker, turn_of, turns, advance_picked, retire_executor, transition_turn,
  dispatch_turn, start_turn, entered, advance, pick, ℕ, Option, free, Bool, is_freed, Threads,
  Phase, enqueueing, retiring, on_mission, retired, leaving, Turn, dispatches, uploads, starts,
  transitions, advances,
}

abbrev pub AllBelow : ℕ → List ℕ → Type 0
AllBelow next [] = Unit {0}
AllBelow next (e ∷ rest) = (e < next) × AllBelow next rest

-- The executor, if there is one, is not destroyed.
abbrev pub IsAlive : ℕ → List ℕ → Option ℕ → Type 0
IsAlive next freed none = Unit {0}
IsAlive next freed (some e) = (e < next) × (is_freed e freed ≡ false)

-- The executor that a thread uses is the ward's, and while one observes the vehicle there is none.
abbrev pub Fits : Option ℕ → ℕ → List ℕ → Phase → Type 0
Fits executor next freed (enqueueing e) = executor ≡ some e
Fits executor next freed (retiring old) = (executor ≡ none) × IsAlive next freed old
Fits executor next freed retired = executor ≡ none
Fits executor next freed on_mission = Unit {0}
Fits executor next freed leaving = Unit {0}

-- One thread holds the ward exactly while it is busy.
abbrev pub Held : Bool → Option ℕ → ℕ → List ℕ → List Phase → Type 0
Held busy executor next freed [] = busy ≡ false
Held busy executor next freed (phase ∷ []) = (busy ≡ true) × Fits executor next freed phase
Held busy executor next freed (phase ∷ second ∷ rest) = ⊥

AllBelow-suc : (next : ℕ) (freed : List ℕ) → AllBelow next freed → AllBelow (next + 1) freed
AllBelow-suc next [] b = tt
AllBelow-suc next (e ∷ rest) b = (omega (arith, b.0), AllBelow-suc next rest b.1)

fresh-alive : (next : ℕ) (freed : List ℕ) → AllBelow next freed → is_freed next freed ≡ false
unfolding is_freed
fresh-alive next [] b = refl
fresh-alive next (e ∷ rest) b = let later = fresh-alive next rest b.1 in ground arith

IsAlive-suc :
    (next : ℕ) (freed : List ℕ) (executor : Option ℕ)
    → IsAlive next freed executor
    → IsAlive (next + 1) freed executor
IsAlive-suc next freed none a = tt
IsAlive-suc next freed (some e) a = (omega (arith, a.0), a.1)

free-AllBelow :
    (next : ℕ) (freed : List ℕ) (old : Option ℕ)
    → IsAlive next freed old
    → AllBelow next freed
    → AllBelow next (free old freed)
unfolding free
free-AllBelow next freed none a b = b
free-AllBelow next freed (some e) a b = (a.0, b)

made-IsAlive :
    (next : ℕ) (freed : List ℕ) (executor : Option ℕ)
    → IsAlive next freed executor
    → AllBelow next freed
    → IsAlive (next + 1) freed (some (executor_or next executor))
unfolding executor_or
made-IsAlive next freed none a b = (omega arith, fresh-alive next freed b)
made-IsAlive next freed (some e) a b = (omega (arith, a.0), a.1)

-- The thread that goes on is the only one.
picked_alone :
    (busy : Bool) (executor : Option ℕ) (next : ℕ) (freed : List ℕ) (n : ℕ) (holders : List Phase)
    (phase : Phase) (others : List Phase)
    → Held busy executor next freed holders
    → pick n holders ≡ some (phase, others)
    → (others ≡ []) × (busy ≡ true) × Fits executor next freed phase
unfolding pick
picked_alone busy executor next freed n [] phase others h e = cc
picked_alone busy executor next freed n (p ∷ q ∷ rest) phase others h e = absurd h
picked_alone busy executor next freed zero (p ∷ []) phase others h e =
    let same : p ≡ phase = cc in (cc, h.0, subst (Fits executor next freed) same h.1)
picked_alone busy executor next freed (suc n) (p ∷ []) phase others h e = cc

-- A thread that is not kept out is the first.
unheld :
    (busy : Bool) (executor : Option ℕ) (next : ℕ) (freed : List ℕ) (holders : List Phase)
    → Held busy executor next freed holders
    → busy ≡ false
    → holders ≡ []
unheld busy executor next freed [] h e = refl
unheld busy executor next freed (phase ∷ []) h e = cc
unheld busy executor next freed (phase ∷ second ∷ rest) h e = absurd h

module _ {M : Type 0} where
  -- What holds between any two steps of the threads.
  abbrev pub Sound : Threads M → Type 0
  Sound s =
      Held s.ward.busy s.ward.executor s.next s.freed s.holders
      × IsAlive s.next s.freed s.ward.executor
      × AllBelow s.next s.freed
      × (s.faults ≡ 0)

  advance-Sound :
      (seen : Bool) (phase : Phase) (s : Threads M)
      → (s.ward.busy ≡ true) × Fits s.ward.executor s.next s.freed phase
      → Sound s
      → Sound (advance seen [] phase s)
  unfolding advance
  advance-Sound seen (enqueueing e) s h i =
      let alive : is_freed e s.freed ≡ false = (subst (IsAlive s.next s.freed) h.1 i.1).1 in
      ((h.0, tt), i.1, i.2, rw alive (omega (arith, i.3)))
  advance-Sound seen on_mission s h i = ((h.0, tt), i.1, i.2, i.3)
  advance-Sound seen (retiring old) s h i = (
    (h.0, h.1.0),
    subst (IsAlive s.next (free old s.freed)) (sym h.1.0) tt,
    free-AllBelow s.next s.freed old h.1.1 i.2,
    i.3,
  )
  advance-Sound true retired s h i = ((h.0, tt), i.1, i.2, i.3)
  advance-Sound false retired s h i = (
    (h.0, tt),
    (omega arith, fresh-alive s.next s.freed i.2),
    AllBelow-suc s.next s.freed i.2,
    i.3,
  )
  advance-Sound seen leaving s h i = (refl, i.1, i.2, i.3)

  -- A section is entered only while no thread holds the ward.
  entered-Sound :
      (phase : Phase) (s : Threads M)
      → s.ward.busy ≡ false
      → Fits s.ward.executor s.next s.freed phase
      → Sound s
      → Sound (record s { ward = record s.ward { busy = true }; holders = phase ∷ s.holders })
  entered-Sound phase s idle fits i =
      let alone = unheld s.ward.busy s.ward.executor s.next s.freed s.holders i.0 idle in
      (
        subst (λ hs. Held true s.ward.executor s.next s.freed (phase ∷ hs)) (sym alone)
            (refl, fits),
        i.1,
        i.2,
        i.3,
      )

  claimed-Sound :
      (phase : Phase) (executor : Option ℕ) (s : Threads M)
      → s.ward.executor ≡ executor
      → Fits s.ward.executor s.next s.freed phase
      → Sound s
      → Sound (entered phase (claim_with executor s.ward) s)
  unfolding entered claim_with
  claimed-Sound phase none s e fits i = i
  claimed-Sound phase (some executor) s e fits i =
      let on_test = λ (b : Bool). Sound (
        entered phase
          (if b
            then (some (text "ward is busy, retry shortly"), s.ward)
            else (none, record s.ward { busy = true }))
          s) in
      elim (Bool-cases s.ward.busy) [
        | inl busy ↦ subst on_test (sym busy) i
        | inr idle ↦ subst on_test (sym idle) (entered-Sound phase s idle fits i)
      ]

  dispatch-Sound :
      (executor : Option ℕ) (s : Threads M)
      → s.ward.executor ≡ executor
      → Sound s
      → Sound (dispatch_turn executor s)
  unfolding dispatch_turn
  dispatch-Sound none s e i = i
  dispatch-Sound (some executor) s e i =
      claimed-Sound (enqueueing executor) s.ward.executor s refl e i

  retiring-Sound :
      (s : Threads M)
      → s.ward.busy ≡ false
      → Sound s
      → Sound (record s {
        ward = retire_executor s.ward;
        holders = retiring s.ward.executor ∷ s.holders;
      })
  unfolding retire_executor
  retiring-Sound s idle i =
      let alone = unheld s.ward.busy s.ward.executor s.next s.freed s.holders i.0 idle in
      (
        subst (λ hs. Held true none s.next s.freed (retiring s.ward.executor ∷ hs)) (sym alone)
            (refl, (refl, i.1)),
        tt,
        i.2,
        i.3,
      )

  started-Sound :
      (s : Threads M)
      → s.ward.busy ≡ false
      → Sound s
      → Sound (record s { ward = start_worker s.next s.ward; next = s.next + 1 })
  unfolding start_worker
  started-Sound s idle i =
      let alone = unheld s.ward.busy s.ward.executor s.next s.freed s.holders i.0 idle in
      (
        subst
            (λ hs.
              Held s.ward.busy (some (executor_or s.next s.ward.executor)) (s.next + 1) s.freed hs)
            (sym alone) idle,
        made-IsAlive s.next s.freed s.ward.executor i.1 i.2,
        AllBelow-suc s.next s.freed i.2,
        i.3,
      )

  picked-Sound :
      (seen : Bool) (n : ℕ) (picked : Option (Phase × List Phase)) (s : Threads M)
      → pick n s.holders ≡ picked
      → Sound s
      → Sound (advance_picked seen picked s)
  unfolding advance_picked
  picked-Sound seen n none s e i = i
  picked-Sound seen n (some (phase, others)) s e i =
      let alone =
        picked_alone s.ward.busy s.ward.executor s.next s.freed n s.holders phase others i.0 e in
      subst (λ hs. Sound (advance seen hs phase s)) (sym alone.0)
        (advance-Sound seen phase s (alone.1, alone.2) i)

  transition-Sound : (passes : Bool) (s : Threads M) → Sound s → Sound (transition_turn passes s)
  unfolding transition_turn
  transition-Sound false s i = i
  transition-Sound true s i =
      let moved : Threads M = record s {
        ward = retire_executor s.ward;
        holders = retiring s.ward.executor ∷ s.holders;
      } in
      let on_test = λ (b : Bool). Sound (if not b then moved else s) in
      elim (Bool-cases s.ward.busy) [
        | inl busy ↦ subst on_test (sym busy) i
        | inr idle ↦ subst on_test (sym idle) (retiring-Sound s idle i)
      ]

  start-Sound : (s : Threads M) → Sound s → Sound (start_turn s)
  unfolding start_turn start_worker
  start-Sound s i =
      let started : Threads M = record s { ward = start_worker s.next s.ward; next = s.next + 1 } in
      let on_test = λ (b : Bool). Sound (if b then s else started) in
      elim (Bool-cases (s.ward.busy || s.ward.running)) [
        | inl kept_out ↦ subst on_test (sym kept_out) i
        | inr free_ward ↦ subst on_test (sym free_ward) (started-Sound s (ground arith) i)
      ]

  turn-Sound : (turn : Turn) (s : Threads M) → Sound s → Sound (turn_of turn s)
  unfolding turn_of claim
  turn-Sound dispatches s i = dispatch-Sound s.ward.executor s refl i
  turn-Sound uploads s i = claimed-Sound on_mission s.ward.executor s refl tt i
  turn-Sound starts s i = start-Sound s i
  turn-Sound (transitions passes) s i = transition-Sound passes s i
  turn-Sound (advances n seen) s i = picked-Sound seen n (pick n s.holders) s refl i

  -- Whatever the threads of one ward do, in whatever order: one at most is past a section that sets
  -- `busy`, the ward is busy exactly while there is one, no executor is used that was destroyed, and
  -- while a transition observes the vehicle the ward has no executor, so no command can get to it.
  pub turns-Sound : (schedule : List Turn) (s : Threads M) → Sound s → Sound (turns schedule s)
  unfolding turns
  turns-Sound [] s i = i
  turns-Sound (turn ∷ rest) s i = turns-Sound rest (turn_of turn s) (turn-Sound turn s i)
