-- ===== src/Common/Order.antt =====
-- The order of strings.
use mathlib.Core.Path.{◌≡◌, refl}
use mathlib.Core.Bool.{true, false}
use mathlib.Core.List.{[], ◌∷◌}
use native.Mathlib.Omega.{arith}
use karshipta.Common.Strings.{Text, text_eq, text_lt}

pub text_lt_irrefl : (s : Text) → text_lt s s ≡ false
unfolding text_lt
text_lt_irrefl [] = refl
text_lt_irrefl (x ∷ xs) = let rest = text_lt_irrefl xs in ground arith

pub text_lt_trans : (r s t : Text) → text_lt r s ≡ true → text_lt s t ≡ true → text_lt r t ≡ true
unfolding text_lt
text_lt_trans r [] t h k = cc
text_lt_trans r (y ∷ ys) [] h k = cc
text_lt_trans [] (y ∷ ys) (z ∷ zs) h k = refl
text_lt_trans (x ∷ xs) (y ∷ ys) (z ∷ zs) h k = let rest = text_lt_trans xs ys zs in ground arith

pub text_lt_connected :
    (s t : Text) → text_eq s t ≡ false → text_lt s t ≡ false → text_lt t s ≡ true
unfolding text_lt text_eq
text_lt_connected [] [] h k = cc
text_lt_connected [] (y ∷ ys) h k = cc
text_lt_connected (x ∷ xs) [] h k = refl
text_lt_connected (x ∷ xs) (y ∷ ys) h k = let rest = text_lt_connected xs ys in ground arith

pub text_eq_sym : (s t : Text) → text_eq s t ≡ false → text_eq t s ≡ false
unfolding text_eq
text_eq_sym [] [] h = h
text_eq_sym [] (y ∷ ys) h = h
text_eq_sym (x ∷ xs) [] h = h
text_eq_sym (x ∷ xs) (y ∷ ys) h = let rest = text_eq_sym xs ys in ground arith

pub text_lt_asym : (s t : Text) → text_lt s t ≡ true → text_lt t s ≡ false
unfolding text_lt
text_lt_asym [] [] h = cc
text_lt_asym [] (y ∷ ys) h = refl
text_lt_asym (x ∷ xs) [] h = cc
text_lt_asym (x ∷ xs) (y ∷ ys) h = let rest = text_lt_asym xs ys in ground arith

pub text_lt-eq : (s t : Text) → text_lt s t ≡ true → text_eq s t ≡ false
unfolding text_lt text_eq
text_lt-eq [] [] h = cc
text_lt-eq [] (y ∷ ys) h = refl
text_lt-eq (x ∷ xs) [] h = cc
text_lt-eq (x ∷ xs) (y ∷ ys) h = let rest = text_lt-eq xs ys in ground arith
