-- ===== src/Gt06/Content/Imei.antt =====
-- An IMEI packed as binary coded decimals is decoded back.
use karshipta.Common.{
  ℕ, ◌+◌, ◌*◌, ◌/◌, ◌^◌, ◌<◌, ◌≡◌, ◌≢◌, ◌⊎◌, refl, ap, ◌∙◌, List, [], ◌∷◌, arith, length, Text,
}
use karshipta.Common.Bits.{bit_and-mask}
use karshipta.Gt06.Content.{imei_digits, strip_padding, decode_imei}

-- Two decimal digits a byte, the first in the high half.
abbrev pub pack : List (ℕ × ℕ) → List ℕ
pack [] = []
pack ((a, b) ∷ rest) = (a * 2 ^ 4 + b) ∷ pack rest

-- The digits as text.
abbrev pub digits : List (ℕ × ℕ) → Text
digits [] = []
digits ((a, b) ∷ rest) = (b'0' + a) ∷ (b'0' + b) ∷ digits rest

abbrev pub AllDecimal : List (ℕ × ℕ) → Type 0
AllDecimal [] = Unit {0}
AllDecimal ((a, b) ∷ rest) = (a < 10) × (b < 10) × AllDecimal rest

imei_digits-pack : (ds : List (ℕ × ℕ)) → AllDecimal ds → imei_digits (pack ds) ≡ digits ds
unfolding imei_digits
imei_digits-pack [] h = refl
imei_digits-pack ((a, b) ∷ rest) h = ground (
  arith,
  bit_and-mask 4 ((a * 2 ^ 4 + b) / 2 ^ 4),
  bit_and-mask 4 (a * 2 ^ 4 + b),
  imei_digits-pack rest h.2,
)

length-digits : (ds : List (ℕ × ℕ)) → length (digits ds) ≡ 2 * length ds
length-digits [] = refl
length-digits ((a, b) ∷ rest) = omega (arith, length-digits rest)

strip_padding-digits :
    (a b : ℕ) (rest : List (ℕ × ℕ))
    → ((a ≡ 0) × (length rest ≡ 7)
        → strip_padding (digits ((a, b) ∷ rest)) ≡ (b'0' + b) ∷ digits rest)
      × ((a ≢ 0) ⊎ (length rest ≢ 7)
          → strip_padding (digits ((a, b) ∷ rest)) ≡ digits ((a, b) ∷ rest))
unfolding strip_padding
strip_padding-digits a b rest =
    (λ h. ground (arith, length-digits rest), λ h. ground (arith, length-digits rest))

-- Packed decimal digits are read back as their text, but for one case: of 16 digits the first of
-- which is 0, that padding digit is dropped, which leaves the 15 digits of an IMEI.
pub decode_imei-pack :
    (a b : ℕ) (rest : List (ℕ × ℕ))
    → AllDecimal ((a, b) ∷ rest)
    → ((a ≡ 0) × (length rest ≡ 7) → decode_imei (pack ((a, b) ∷ rest)) ≡ (b'0' + b) ∷ digits rest)
      × ((a ≢ 0) ⊎ (length rest ≢ 7) → decode_imei (pack ((a, b) ∷ rest)) ≡ digits ((a, b) ∷ rest))
unfolding decode_imei
decode_imei-pack a b rest h =
    let read_back = ap strip_padding (imei_digits-pack ((a, b) ∷ rest) h) in
    let (padded, plain) = strip_padding-digits a b rest in
    (λ p. read_back ∙ padded p, λ p. read_back ∙ plain p)
