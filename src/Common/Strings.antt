-- ===== src/Common/Strings.antt =====
-- `std::string` as its bytes, and `std::map` from strings as the list of its entries in key order.
use Prim.Native.Char.{code}
use Prim.Native.Nat.{ℕ, compare, Ordering}
use Prim.Native.String.{String}
use mathlib.Core.Path.{◌≡◌, refl}
use mathlib.Core.Logic.{◌↔◌}
use mathlib.Core.Bool.{Bool, true, false, ◌&&◌}
use mathlib.Core.List.{List, [], ◌∷◌}
use mathlib.Core.Option.{Option, none, some}
use native.Mathlib.Omega.{arith}
use karshipta.Common.Tests.{◌==◌, if◌then◌else◌}

abbrev pub Text : Type 0
Text = List ℕ

abbrev pub text : String → Text
text String.[] = []
text (String.◌∷◌ c s) = code c ∷ text s

-- `==` of two strings.
unfoldable pub text_eq : Text → Text → Bool
text_eq [] [] = true
text_eq [] (y ∷ ys) = false
text_eq (x ∷ xs) [] = false
text_eq (x ∷ xs) (y ∷ ys) = (x == y) && text_eq xs ys

-- `<` of two strings, by their first difference.
unfoldable pub text_lt : Text → Text → Bool
text_lt xs [] = false
text_lt [] (y ∷ ys) = true
text_lt (x ∷ xs) (y ∷ ys) = elim (compare x y) [
  | Ordering.lt ↦ true
  | Ordering.eq ↦ text_lt xs ys
  | Ordering.gt ↦ false
]

unfoldable pub is_empty : Text → Bool
is_empty [] = true
is_empty (x ∷ xs) = false

pub is_empty_iff : (s : Text) → (is_empty s ≡ true) ↔ (s ≡ [])
unfolding is_empty
is_empty_iff [] = (λ _. refl, λ _. refl)
is_empty_iff (x ∷ xs) = (λ e. cc, λ e. cc)

pub text_eq_iff : (s t : Text) → (text_eq s t ≡ true) ↔ (s ≡ t)
unfolding text_eq
text_eq_iff [] [] = (λ _. refl, λ _. refl)
text_eq_iff [] (y ∷ ys) = (λ e. cc, λ e. cc)
text_eq_iff (x ∷ xs) [] = (λ e. cc, λ e. cc)
text_eq_iff (x ∷ xs) (y ∷ ys) = ground (arith, text_eq_iff xs ys)

pub text_eq_refl : (s : Text) → text_eq s s ≡ true
text_eq_refl s = (text_eq_iff s s).1 refl

module _ {ℓ} {V : Type ℓ} where
  -- `find`
  unfoldable pub lookup : Text → List (Text × V) → Option V
  lookup key [] = none
  lookup key ((first, value) ∷ entries) =
      if text_eq first key then some value else lookup key entries

  -- `map[key] = value`
  unfoldable pub insert : Text → V → List (Text × V) → List (Text × V)
  insert key value [] = (key, value) ∷ []
  insert key value ((first, old) ∷ entries) =
      if text_eq first key
      then (key, value) ∷ entries
      else if text_lt key first
      then (key, value) ∷ (first, old) ∷ entries
      else (first, old) ∷ insert key value entries

  -- `erase(key)`
  unfoldable pub erase : Text → List (Text × V) → List (Text × V)
  erase key [] = []
  erase key ((first, value) ∷ entries) =
      if text_eq first key then entries else (first, value) ∷ erase key entries

  pub lookup-insert :
      (key other : Text) (value : V) (entries : List (Text × V))
      → lookup other (insert key value entries)
        ≡ (if text_eq key other then some value else lookup other entries)
  unfolding lookup insert
  lookup-insert key other value [] = refl
  lookup-insert key other value ((first, old) ∷ entries) = ground (
    arith,
    lookup-insert key other value entries,
    text_eq_iff first other,
    text_eq_iff first key,
    text_eq_iff key other,
  )

  pub lookup-insert_self :
      (key : Text) (value : V) (entries : List (Text × V))
      → lookup key (insert key value entries) ≡ some value
  lookup-insert_self key value entries = rw (lookup-insert, text_eq_refl) refl
