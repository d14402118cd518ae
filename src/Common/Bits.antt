-- ===== src/Common/Bits.antt =====
-- Laws of the bit operations at variables: a shifted value joined with a low one, and low masks.
use Prim.Native.Nat.{min, max, digits, bit_and-bitwise, bit_or-bitwise}
use Prim.Native.Nat.{ℕ, zero, suc, ◌+◌, ◌-◌, ◌*◌, ◌/◌, ◌%◌, ◌^◌, ◌≤◌, ◌<◌, bit_and, bit_or}
use mathlib.Core.Path.{◌≡◌, refl, ap}
use native.Mathlib.Nat.{pow-suc, one-le-pow}
use native.Mathlib.Omega.{arith}

module _ (base : ℕ → ℕ) (op : ℕ → ℕ → ℕ) where
  -- The fuel of the digit recursion does not matter once it covers the first argument.
  digits-same : (k : ℕ) (x l y : ℕ) → x ≤ k → x ≤ l → digits base op k x y ≡ digits base op l x y
  digits-same zero (suc x) l y hk hl = absurd (omega arith)
  digits-same (suc k) (suc x) zero y hk hl = absurd (omega arith)
  digits-same zero zero zero y hk hl = refl
  digits-same zero zero (suc l) y hk hl = refl
  digits-same (suc k) zero zero y hk hl = refl
  digits-same (suc k) zero (suc l) y hk hl = refl
  digits-same (suc k) (suc x) (suc l) y hk hl =
      let half : suc x / 2 ≤ x = omega arith in
      rw (digits-same k (suc x / 2) l (y / 2) (omega (arith, half)) (omega (arith, half)))

  -- So half of a number may be its own fuel.
  digits-halved :
      (x y : ℕ)
      → digits base op x (suc x / 2) (y / 2) ≡ digits base op (suc x / 2) (suc x / 2) (y / 2)
  digits-halved x y = digits-same x (suc x / 2) (suc x / 2) (y / 2) (omega arith) (omega arith)

-- The lowest digit, and the rest.
bit_or-halves : (x y : ℕ) → bit_or x y ≡ bit_or (x / 2) (y / 2) * 2 + max (x % 2) (y % 2)
bit_or-halves (suc x) y = omega (
  arith,
  digits-halved (λ d. d) max x y,
  bit_or-bitwise (suc x / 2) (y / 2),
  bit_or-bitwise (suc x) y,
)
bit_or-halves zero y = omega (arith, bit_or-bitwise 0 (y / 2), bit_or-bitwise 0 y)

bit_and-halves : (x y : ℕ) → bit_and x y ≡ bit_and (x / 2) (y / 2) * 2 + min (x % 2) (y % 2)
bit_and-halves (suc x) y = omega (
  arith,
  digits-halved (λ d. 0) min x y,
  bit_and-bitwise (suc x / 2) (y / 2),
  bit_and-bitwise (suc x) y,
)
bit_and-halves zero y = omega (arith, bit_and-bitwise 0 (y / 2), bit_and-bitwise 0 y)

-- Both operations on zero, by halving.
on_zero : (k x : ℕ) → x ≤ k → (bit_or x 0 ≡ x) × (bit_and x 0 ≡ 0)
on_zero k zero h = (refl, refl)
on_zero zero (suc x) h = absurd (omega arith)
on_zero (suc k) (suc x) h =
    let smaller = on_zero k (suc x / 2) (omega arith) in
    (
      omega (arith, bit_or-halves (suc x) 0, smaller.0),
      omega (arith, bit_and-halves (suc x) 0, smaller.1),
    )

-- `hi << k | lo` is a sum where `lo` has `k` bits.
pub bit_or-shifted : (k hi lo : ℕ) → lo < 2 ^ k → bit_or (hi * 2 ^ k) lo ≡ hi * 2 ^ k + lo
bit_or-shifted zero hi lo h = ground (arith, on_zero hi hi)
bit_or-shifted (suc k) hi lo h = ground (
  arith,
  bit_or-halves (hi * 2 ^ suc k) lo,
  ap (λ (t : ℕ). hi * t) (pow-suc 2 k),
  pow-suc 2 k,
  bit_or-shifted k hi (lo / 2),
)

-- A mask of `k` ones keeps the low `k` bits.
bit_and-fields : (k hi lo : ℕ) → lo < 2 ^ k → bit_and (hi * 2 ^ k + lo) (2 ^ k - 1) ≡ lo
bit_and-fields zero hi lo h = ground (arith, on_zero (hi * 1 + lo) (hi * 1 + lo))
bit_and-fields (suc k) hi lo h = ground (
  arith,
  bit_and-halves (hi * 2 ^ suc k + lo) (2 ^ suc k - 1),
  ap (λ (t : ℕ). hi * t) (pow-suc 2 k),
  pow-suc 2 k,
  one-le-pow k 2,
  bit_and-fields k hi (lo / 2),
)

pub bit_and-mask : (k a : ℕ) → bit_and a (2 ^ k - 1) ≡ a % 2 ^ k
bit_and-mask k a = ground (arith, one-le-pow k 2, bit_and-fields k (a / 2 ^ k) (a % 2 ^ k))
