-- ===== src/Gt06/Frame/Stop.antt =====
-- What the search for a stop marker finds.
use karshipta.Common.{
  ℕ, zero, suc, ◌+◌, ◌≤◌, ◌<◌, ◌≡◌, refl, inl, inr, true, ◌&&◌, List, [], ◌∷◌, some, none, arith,
  ◌==◌, Bool-cases, length, get_elem?,
}
use karshipta.Gt06.Frame.{find_stop, stop_byte1, stop_byte2}

-- The stop marker stands at index `i`.
abbrev pub StopAt : List ℕ → ℕ → Type 0
StopAt bytes i = (get_elem? bytes i ≡ some stop_byte1) × (get_elem? bytes (suc i) ≡ some stop_byte2)

-- `n` is the end of the first stop marker.
pub record FirstStop (bytes : List ℕ) (n : ℕ) : Type 0 where
  pub start : ℕ
  pub ends : n ≡ start + 2
  pub inside : n ≤ length bytes
  pub found : StopAt bytes start
  pub first : (j : ℕ) → j < start → ¬ StopAt bytes j

FirstStop-shift :
    (a b : ℕ) (rest : List ℕ) (i n : ℕ)
    → ¬ (((a == stop_byte1) && (b == stop_byte2)) ≡ true)
    → (m : ℕ) → n ≡ m + 1
    → FirstStop (b ∷ rest) m
    → FirstStop (a ∷ b ∷ rest) n
FirstStop-shift a b rest i n miss m e s = record {
  start = suc s.start;
  ends = omega (arith, s.ends);
  inside = omega (arith, s.inside);
  found = s.found;
  first = go;
}
  where
    go : (j : ℕ) → j < suc s.start → ¬ StopAt (a ∷ b ∷ rest) j
    go zero h (p, q) = miss (ground arith)
    go (suc j) h p = s.first j (omega arith) p

find_stop-FirstStop :
    (bytes : List ℕ) (i n : ℕ)
    → find_stop bytes i ≡ some n
    → (m : ℕ) × (n ≡ i + m) × FirstStop bytes m
unfolding find_stop
find_stop-FirstStop [] i n e = cc
find_stop-FirstStop (a ∷ []) i n e = cc
find_stop-FirstStop (a ∷ b ∷ rest) i n e =
    elim (Bool-cases ((a == stop_byte1) && (b == stop_byte2))) [
      | inl hit ↦ (
        2,
        ground arith,
        record {
          start = 0;
          ends = omega arith;
          inside = omega arith;
          found = (ground arith, ground arith);
          first = λ j h. elim h [ ];
        },
      )
      | inr miss ↦
          let (m, e', s) = find_stop-FirstStop (b ∷ rest) (i + 1) n (rw miss at e) in
          (m + 1, omega arith, FirstStop-shift a b rest i (m + 1) (λ p. cc) m refl s)
    ]

pub find_stop-found : (bytes : List ℕ) (n : ℕ) → find_stop bytes 0 ≡ some n → FirstStop bytes n
find_stop-found bytes n e =
    let (m, e', s) = find_stop-FirstStop bytes 0 n e in let q : m ≡ n = omega arith in rw q at s

pub find_stop-missing :
    (bytes : List ℕ) (i : ℕ) → find_stop bytes i ≡ none → (j : ℕ) → ¬ StopAt bytes j
unfolding find_stop
find_stop-missing [] i e j p = ground arith
find_stop-missing (a ∷ []) i e zero p = ground arith
find_stop-missing (a ∷ []) i e (suc j) p = ground arith
find_stop-missing (a ∷ b ∷ rest) i e zero p = ground arith
find_stop-missing (a ∷ b ∷ rest) i e (suc j) p =
    find_stop-missing (b ∷ rest) (i + 1) (ground arith) j p
