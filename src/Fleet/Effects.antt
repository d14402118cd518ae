-- ===== src/Fleet/Effects.antt =====
-- Computations with a state that may throw, and what they keep true.
use karshipta.Common.{◌≡◌, refl, ◌⊎◌, inl, inr, Text}

-- `threw` carries the exception's `what()`.
pub data Result (A : Type 0) : Type 0 where
  ok : A → Result A
  threw : Text → Result A

abbrev pub Any : {A : Type 0} → A → Type 0
Any a = Unit {0}

module _ {W : Type 0} where
  abbrev pub and_then : {A B : Type 0} → (A → W → Result B × W) → Result A × W → Result B × W
  and_then f (ok a, w) = f a w
  and_then f (threw e, w) = (threw e, w)

  infixl 5 ◌>>=◌ ◌>>◌
  abbrev pub ◌>>=◌ : {A B : Type 0} → (W → Result A × W) → (A → W → Result B × W) → W → Result B × W
  (m >>= f) w = and_then f (m w)

  abbrev pub ◌>>◌ : {A B : Type 0} → (W → Result A × W) → (W → Result B × W) → W → Result B × W
  m >> k = m >>= λ _. k

  abbrev pub pure : {A : Type 0} → A → W → Result A × W
  pure a w = (ok a, w)

  abbrev pub caught : {A : Type 0} → (Text → A) → Result A × W → A × W
  caught handler (ok a, w) = (a, w)
  caught handler (threw e, w) = (handler e, w)

  -- `try` and `catch` of any exception.
  abbrev pub try_catch : {A : Type 0} → (W → Result A × W) → (Text → A) → W → A × W
  try_catch m handler w = caught handler (m w)

  -- What holds of the state still holds, and `Q` holds of the value, if there is one.
  abbrev pub Post : {A : Type 0} → (W → Type 0) → (A → Type 0) → Result A × W → Type 0
  Post P Q (ok a, w) = P w × Q a
  Post P Q (threw e, w) = P w

  Post-and_then :
      {A B : Type 0} (P : W → Type 0) (Q : A → Type 0) (R : B → Type 0) (f : A → W → Result B × W)
      (r : Result A × W)
      → ((a : A) (w : W) → Q a → P w → Post P R (f a w))
      → Post P Q r
      → Post P R (and_then f r)
  Post-and_then P Q R f (ok a, w) k h = k a w h.1 h.0
  Post-and_then P Q R f (threw e, w) k h = h

  -- What is kept through a sequence.
  pub Post-bind :
      {A B : Type 0} (P : W → Type 0) (Q : A → Type 0) (R : B → Type 0) (m : W → Result A × W)
      (f : A → W → Result B × W) (w : W)
      → Post P Q (m w)
      → ((a : A) (w' : W) → Q a → P w' → Post P R (f a w'))
      → Post P R ((m >>= f) w)
  Post-bind P Q R m f w h k = Post-and_then P Q R f (m w) k h

  pub Post-caught :
      {A : Type 0} (P : W → Type 0) (Q : A → Type 0) (r : Result A × W) (handler : Text → A)
      → Post P Q r
      → P (caught handler r).1
  Post-caught P Q (ok a, w) handler h = h.0
  Post-caught P Q (threw e, w) handler h = h

  pub Post-intro :
      {A : Type 0} (P : W → Type 0) (Q : A → Type 0) (r : Result A × W)
      → P r.1
      → ((a : A) → r.0 ≡ ok a → Q a)
      → Post P Q r
  Post-intro P Q (ok a, w) h q = (h, q a refl)
  Post-intro P Q (threw e, w) h q = h

pub Result-cases :
    {A : Type 0} (r : Result A) → ((a : A) × (r ≡ ok a)) ⊎ ((e : Text) × (r ≡ threw e))
Result-cases (ok a) = inl (a, refl)
Result-cases (threw e) = inr (e, refl)
