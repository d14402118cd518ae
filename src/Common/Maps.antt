-- ===== src/Common/Maps.antt =====
-- `std::map` from strings: what holds of its entries, and their order.
use mathlib.Core.Path.{◌≡◌, refl, ap, subst}
use mathlib.Core.Bool.{true}
use mathlib.Core.Option.{Option, none, some}
use mathlib.Core.List.{List, [], ◌∷◌, ◌++◌}
use karshipta.Common.Tests.{if_both}
use karshipta.Common.Strings.{Text, text_eq, text_eq_iff, text_lt, lookup, insert, erase}
use karshipta.Common.Reads.{some-path}
use karshipta.Common.Order.{text_lt_trans, text_lt_connected, text_lt_asym, text_eq_sym, text_lt-eq}

module _ {ℓ} {V : Type ℓ} where
  abbrev pub AllEntries {κ} : (Text → V → Type κ) → List (Text × V) → Type κ
  AllEntries P [] = Unit
  AllEntries P ((key, value) ∷ entries) = P key value × AllEntries P entries

  -- Every key is after `first`.
  abbrev pub KeysAfter : Text → List (Text × V) → Type 0
  KeysAfter first = AllEntries (λ key value. text_lt first key ≡ true)

  abbrev pub Sorted : List (Text × V) → Type 0
  Sorted [] = Unit
  Sorted ((key, value) ∷ entries) = KeysAfter key entries × Sorted entries

  pub insert-AllEntries {κ} :
      (P : Text → V → Type κ) (key : Text) (value : V) (entries : List (Text × V))
      → P key value
      → AllEntries P entries
      → AllEntries P (insert key value entries)
  unfolding insert
  insert-AllEntries P key value [] p all = (p, tt)
  insert-AllEntries P key value ((first, old) ∷ entries) p all =
      if_both (AllEntries P) (text_eq first key) (λ _. (p, all.1))
        (λ _.
          if_both (AllEntries P) (text_lt key first) (λ _. (p, all))
            (λ _. (all.0, insert-AllEntries P key value entries p all.1)))

  pub erase-AllEntries {κ} :
      (P : Text → V → Type κ) (key : Text) (entries : List (Text × V))
      → AllEntries P entries
      → AllEntries P (erase key entries)
  unfolding erase
  erase-AllEntries P key [] all = tt
  erase-AllEntries P key ((first, value) ∷ entries) all =
      if_both (AllEntries P) (text_eq first key) (λ _. all.1)
        (λ _. (all.0, erase-AllEntries P key entries all.1))

  pub lookup-AllEntries {κ} :
      (P : Text → V → Type κ) (key : Text) (value : V) (entries : List (Text × V))
      → AllEntries P entries
      → lookup key entries ≡ some value
      → P key value
  unfolding lookup
  lookup-AllEntries P key value [] all e = cc
  lookup-AllEntries P key value ((first, found) ∷ entries) all e =
      if_both (λ (o : Option V). o ≡ some value → P key value) (text_eq first key)
        (λ same at_first.
          let key_path : first ≡ key = (text_eq_iff first key).0 same in
          let value_path : found ≡ value = cc in
          subst (λ k. P k value) key_path (subst (P first) value_path all.0))
        (λ _ later. lookup-AllEntries P key value entries all.1 later) e

  KeysAfter-trans :
      (first key : Text) (entries : List (Text × V))
      → text_lt first key ≡ true
      → KeysAfter key entries
      → KeysAfter first entries
  KeysAfter-trans first key [] before all = tt
  KeysAfter-trans first key ((next, value) ∷ entries) before all =
      (text_lt_trans first key next before all.0, KeysAfter-trans first key entries before all.1)

  pub insert-Sorted :
      (key : Text) (value : V) (entries : List (Text × V))
      → Sorted entries
      → Sorted (insert key value entries)
  unfolding insert
  insert-Sorted key value [] s = (tt, tt)
  insert-Sorted key value ((first, old) ∷ entries) s =
      if_both Sorted (text_eq first key)
        (λ same. (subst (λ k. KeysAfter k entries) ((text_eq_iff first key).0 same) s.0, s.1))
        (λ other.
          if_both Sorted (text_lt key first)
            (λ before. ((before, KeysAfter-trans key first entries before s.0), s))
            (λ after. (
              insert-AllEntries (λ k v. text_lt first k ≡ true) key value entries
                  (text_lt_connected key first (text_eq_sym first key other) after) s.0,
              insert-Sorted key value entries s.1,
            )))

  pub erase-Sorted :
      (key : Text) (entries : List (Text × V)) → Sorted entries → Sorted (erase key entries)
  unfolding erase
  erase-Sorted key [] s = tt
  erase-Sorted key ((first, value) ∷ entries) s =
      if_both Sorted (text_eq first key) (λ _. s.1)
        (λ _. (
          erase-AllEntries (λ k v. text_lt first k ≡ true) key entries s.0,
          erase-Sorted key entries s.1,
        ))

  -- What is after all keys is not there.
  pub lookup-before :
      (key : Text) (entries : List (Text × V)) → KeysAfter key entries → lookup key entries ≡ none
  unfolding lookup
  lookup-before key [] all = refl
  lookup-before key ((first, value) ∷ entries) all =
      let apart = text_eq_sym key first (text_lt-eq key first all.0) in
      rw (apart) (lookup-before key entries all.1)

  -- The entry that is there is put in its own place.
  pub insert-present :
      (key : Text) (value : V) (entries : List (Text × V))
      → Sorted entries
      → lookup key entries ≡ some value
      → insert key value entries ≡ entries
  unfolding insert lookup
  insert-present key value [] s e = cc
  insert-present key value ((first, old) ∷ entries) s e =
      if_both
        (λ (o : Option V).
          o ≡ some value → insert key value ((first, old) ∷ entries) ≡ (first, old) ∷ entries)
        (text_eq first key)
        (λ same at_first.
          let key_path : first ≡ key = (text_eq_iff first key).0 same in
          let value_path : old ≡ value = some-path at_first in
          rw same (ap (λ entry. entry ∷ entries) (cc)))
        (λ apart later.
          let before : text_lt first key ≡ true =
            lookup-AllEntries (λ k v. text_lt first k ≡ true) key value entries s.0 later in
          let after = text_lt_asym first key before in
          rw (apart, after)
            (ap (λ es. (first, old) ∷ es) (insert-present key value entries s.1 later)))
        e

  -- An entry after all others is put at the end.
  pub insert-last :
      (key : Text) (value : V) (entries : List (Text × V))
      → AllEntries (λ k v. text_lt k key ≡ true) entries
      → insert key value entries ≡ entries ++ (key, value) ∷ []
  unfolding insert
  insert-last key value [] all = refl
  insert-last key value ((first, old) ∷ entries) all =
      let apart = text_lt-eq first key all.0 in
      let after = text_lt_asym first key all.0 in
      rw (apart, after) (ap (λ es. (first, old) ∷ es) (insert-last key value entries all.1))

  pub AllEntries-last {κ} :
      (P : Text → V → Type κ) (key : Text) (value : V) (done rest : List (Text × V))
      → AllEntries P (done ++ (key, value) ∷ rest)
      → P key value
  AllEntries-last P key value [] rest all = all.0
  AllEntries-last P key value ((first, old) ∷ done) rest all =
      AllEntries-last P key value done rest all.1
