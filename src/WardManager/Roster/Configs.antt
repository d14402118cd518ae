-- ===== src/WardManager/Roster/Configs.antt =====
-- What makes a registry of wards well-formed, and how it is changed.
use karshipta.Common.{
  Bool, true, text_lt, text_eq, refl, Option, insert-AllEntries, insert-Sorted, erase-AllEntries,
  none, is_some, some, false, ◌⊎◌, ◌^◌, is_empty, erase-Sorted, AllEntries, ◌≡◌, arith, ◌<◌, Sorted,
  erase, insert, Text, ℕ, List, lookup, ◌≢◌, [], ◌∷◌, if_both,
}
use karshipta.Messages.{WardClass, class_unrecognized}
use karshipta.WardManager.Roster.{ManagedWard, WardConfig, system_id_holder}

-- Zero names no autopilot, so that two wards may have it.
abbrev pub Differ : ℕ → ℕ → Type 0
Differ a b = (a ≡ 0) ⊎ (a ≢ b)

pub Differ-sym : (a b : ℕ) → Differ a b → Differ b a
Differ-sym a b d = ground arith

-- A class that the enumeration has a name for.
abbrev pub is_named : WardClass → Bool
is_named (class_unrecognized number) = false
is_named other = true

-- `mavlink_system_id` is a 32-bit number.
abbrev pub IsConfig : Text → WardConfig → Type 0
IsConfig id cfg =
    (cfg.ward_id ≡ id)
    × (is_empty cfg.ward_id ≡ false)
    × (is_empty cfg.connection_url ≡ false)
    × (cfg.system_id < 2 ^ 32)
    × (is_named cfg.ward_class ≡ true)

abbrev pub Apart : ℕ → List (Text × WardConfig) → Type 0
Apart system_id = AllEntries (λ id cfg. Differ cfg.system_id system_id)

abbrev pub SystemsApart : List (Text × WardConfig) → Type 0
SystemsApart [] = Unit {0}
SystemsApart ((id, cfg) ∷ rest) = Apart cfg.system_id rest × SystemsApart rest

-- In the order of their ids, each under its own, and no two of one autopilot.
abbrev pub IsRoster : List (Text × WardConfig) → Type 0
IsRoster entries = Sorted entries × AllEntries IsConfig entries × SystemsApart entries

-- A configuration that the registry takes.
abbrev pub Accepts : WardConfig → List (Text × WardConfig) → Type 0
Accepts cfg entries =
    (is_empty cfg.ward_id ≡ false)
    × (is_empty cfg.connection_url ≡ false)
    × (lookup cfg.ward_id entries ≡ none)
    × Apart cfg.system_id entries

insert-SystemsApart :
    (id : Text) (cfg : WardConfig) (entries : List (Text × WardConfig))
    → lookup id entries ≡ none
    → Apart cfg.system_id entries
    → SystemsApart entries
    → SystemsApart (insert id cfg entries)
unfolding insert lookup
insert-SystemsApart id cfg [] e a s = (tt, tt)
insert-SystemsApart id cfg ((first, old) ∷ entries) e a s =
    if_both
      (λ (found : Option WardConfig).
        found ≡ none → SystemsApart (insert id cfg ((first, old) ∷ entries)))
      (text_eq first id) (λ _ there. cc)
      (λ other later. rw other (
        if_both SystemsApart (text_lt id first) (λ _. (a, s))
          (λ _. (
            insert-AllEntries (λ key value. Differ value.system_id old.system_id) id cfg entries
                (Differ-sym old.system_id cfg.system_id a.0) s.0,
            insert-SystemsApart id cfg entries later a.1 s.1,
          ))))
      e

erase-SystemsApart :
    (id : Text) (entries : List (Text × WardConfig))
    → SystemsApart entries
    → SystemsApart (erase id entries)
unfolding erase
erase-SystemsApart id [] s = tt
erase-SystemsApart id ((first, old) ∷ entries) s =
    if_both SystemsApart (text_eq first id) (λ _. s.1)
      (λ _. (
        erase-AllEntries (λ key value. Differ value.system_id old.system_id) id entries s.0,
        erase-SystemsApart id entries s.1,
      ))

pub insert-IsRoster :
    (cfg : WardConfig) (entries : List (Text × WardConfig))
    → (cfg.system_id < 2 ^ 32) × (is_named cfg.ward_class ≡ true)
    → Accepts cfg entries
    → IsRoster entries
    → IsRoster (insert cfg.ward_id cfg entries)
insert-IsRoster cfg entries fits a r = (
  insert-Sorted cfg.ward_id cfg entries r.0,
  insert-AllEntries IsConfig cfg.ward_id cfg entries (refl, a.0, a.1, fits.0, fits.1) r.1,
  insert-SystemsApart cfg.ward_id cfg entries a.2 a.3 r.2,
)

pub erase-IsRoster :
    (id : Text) (entries : List (Text × WardConfig))
    → IsRoster entries
    → IsRoster (erase id entries)
erase-IsRoster id entries r = (
  erase-Sorted id entries r.0,
  erase-AllEntries IsConfig id entries r.1,
  erase-SystemsApart id entries r.2,
)

module _ {E M : Type 0} where
  -- The configurations of the wards.
  abbrev pub configs : List (Text × ManagedWard E M) → List (Text × WardConfig)
  configs [] = []
  configs ((id, ward) ∷ rest) = (id, ward.config) ∷ configs rest

  pub configs-insert :
      (id : Text) (ward : ManagedWard E M) (wards : List (Text × ManagedWard E M))
      → configs (insert id ward wards) ≡ insert id ward.config (configs wards)
  unfolding insert
  configs-insert id ward [] = refl
  configs-insert id ward ((first, old) ∷ wards) =
      let rest = configs-insert id ward wards in ground arith

  pub configs-erase :
      (id : Text) (wards : List (Text × ManagedWard E M))
      → configs (erase id wards) ≡ erase id (configs wards)
  unfolding erase
  configs-erase id [] = refl
  configs-erase id ((first, old) ∷ wards) = let rest = configs-erase id wards in ground arith

  pub lookup-configs-some :
      (id : Text) (ward : ManagedWard E M) (wards : List (Text × ManagedWard E M))
      → lookup id wards ≡ some ward
      → lookup id (configs wards) ≡ some ward.config
  unfolding lookup
  lookup-configs-some id ward [] e = cc
  lookup-configs-some id ward ((first, old) ∷ wards) e =
      let rest = lookup-configs-some id ward wards in ground arith

  pub is_some-configs :
      (id : Text) (wards : List (Text × ManagedWard E M))
      → is_some (lookup id wards) ≡ is_some (lookup id (configs wards))
  unfolding lookup
  is_some-configs id [] = refl
  is_some-configs id ((first, old) ∷ wards) = let rest = is_some-configs id wards in ground arith

  pub holder_none :
      (system_id : ℕ) (wards : List (Text × ManagedWard E M))
      → system_id_holder system_id wards ≡ none
      → Apart system_id (configs wards)
  unfolding system_id_holder
  holder_none system_id [] e = tt
  holder_none system_id ((first, old) ∷ wards) e =
      let rest = holder_none system_id wards in (ground arith, rest (ground arith))

  pub holder-Apart :
      (system_id : ℕ) (wards : List (Text × ManagedWard E M))
      → system_id ≢ 0
      → Apart system_id (configs wards)
      → system_id_holder system_id wards ≡ none
  unfolding system_id_holder
  holder-Apart system_id [] n a = refl
  holder-Apart system_id ((first, old) ∷ wards) n a =
      let rest = holder-Apart system_id wards n a.1 in let here = a.0 in ground arith

  pub zero-Apart : (wards : List (Text × ManagedWard E M)) → Apart 0 (configs wards)
  zero-Apart [] = tt
  zero-Apart ((first, old) ∷ wards) = (ground arith, zero-Apart wards)
