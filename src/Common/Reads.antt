-- ===== src/Common/Reads.antt =====
-- Code that may read outside a buffer: `none` stands for such a read.
use mathlib.Core.Path.{◌≡◌, refl}
use mathlib.Core.Option.{Option, none, some}

module _ {ℓ κ} {A : Type ℓ} {B : Type κ} where
  infixl 5 ◌>>=◌
  abbrev pub ◌>>=◌ : Option A → (A → Option B) → Option B
  none >>= f = none
  some a >>= f = f a

  -- Inversion of a chain that gives a result.
  pub >>=-eq-some :
      (m : Option A) (f : A → Option B) {b : B}
      → (m >>= f) ≡ some b
      → (a : A) × (m ≡ some a) × (f a ≡ some b)
  >>=-eq-some none f e = cc
  >>=-eq-some (some a) f e = (a, refl, e)

-- The computation has a result: no read of it is out of bounds.
abbrev pub Defined {ℓ} : {A : Type ℓ} → Option A → Type ℓ
Defined {A = A} m = (a : A) × (m ≡ some a)

pub Defined-bind {ℓ κ} :
    {A : Type ℓ} {B : Type κ} (m : Option A) (f : A → Option B)
    → Defined m
    → ((a : A) → Defined (f a))
    → Defined (m >>= f)
Defined-bind m f (a, e) h = rw (e, ◌>>=◌) (h a)

-- The computation has a result, and `P` holds of it.
abbrev pub Returns {ℓ κ} : {A : Type ℓ} → (A → Type κ) → Option A → Type (ℓ ⊔ κ)
Returns {A = A} P m = (a : A) × (m ≡ some a) × P a

pub Returns-bind {ℓ κ μ} :
    {A : Type ℓ} {B : Type κ} (P : B → Type μ) (m : Option A) (f : A → Option B)
    → Defined m
    → ((a : A) → m ≡ some a → Returns P (f a))
    → Returns P (m >>= f)
Returns-bind P m f (a, e) h = rw (e, ◌>>=◌) (h a e)

pub Returns-then {ℓ κ μ ν} :
    {A : Type ℓ} {B : Type κ} (Q : A → Type ν) (P : B → Type μ) (m : Option A) (f : A → Option B)
    → Returns Q m
    → ((a : A) → Q a → Returns P (f a))
    → Returns P (m >>= f)
Returns-then Q P m f (a, e, q) h = rw (e, ◌>>=◌) (h a q)

pub some-path {ℓ} : {A : Type ℓ} {a b : A} → some a ≡ some b → a ≡ b
some-path e = cc

-- Inversion where the last step only rearranges the result.
pub map-eq-some {ℓ κ} :
    {A : Type ℓ} {B : Type κ} (m : Option A) (g : A → B) {b : B}
    → (m >>= λ a. some (g a)) ≡ some b
    → (a : A) × (m ≡ some a) × (g a ≡ b)
map-eq-some none g e = cc
map-eq-some (some a) g e = (a, refl, some-path e)
