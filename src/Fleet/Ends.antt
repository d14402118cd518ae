-- ===== src/Fleet/Ends.antt =====
-- Computations that do not throw, and what holds at their end.
use karshipta.Common.{◌≡◌, sym, subst, Text}
use karshipta.Fleet.Effects.{Result, ok, threw, and_then, caught}

-- A computation gives a value, and `Q` holds of it and of the state.
abbrev pub Ends : {W A : Type 0} → (A → W → Type 0) → Result A × W → Type 0
Ends Q (ok a, w) = Q a w
Ends Q (threw e, w) = ⊥

pub Ends-and_then :
    {W A B : Type 0} (Q : A → W → Type 0) (R : B → W → Type 0) (f : A → W → Result B × W)
    (r : Result A × W)
    → Ends Q r
    → ((a : A) (w : W) → Q a w → Ends R (f a w))
    → Ends R (and_then f r)
Ends-and_then Q R f (ok a, w) h k = k a w h
Ends-and_then Q R f (threw e, w) h k = absurd h

pub Ends-intro :
    {W A : Type 0} (Q : A → W → Type 0) (r : Result A × W) (a : A) → r.0 ≡ ok a → Q a r.1 → Ends Q r
Ends-intro Q (ok b, w) a e q = let same : b ≡ a = cc in subst (λ x. Q x w) (sym same) q
Ends-intro Q (threw error, w) a e q = cc

pub Ends-caught :
    {W A : Type 0} (Q : W → Type 0) (r : Result A × W) (handler : Text → A)
    → Ends (λ a w. Q w) r
    → Q (caught handler r).1
Ends-caught Q (ok a, w) handler h = h
Ends-caught Q (threw e, w) handler h = absurd h
