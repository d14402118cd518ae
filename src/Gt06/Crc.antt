-- ===== src/Gt06/Crc.antt =====
-- `Gt06Parser::crc16_x25`.
use karshipta.Common.{
  ℕ, zero, suc, ◌/◌, ◌%◌, ◌^◌, ◌<◌, bit_and, bit_xor, List, [], ◌∷◌, ◌≡◌, refl, arith, ◌==◌,
  if◌then◌else◌,
}

-- One turn of the inner loop: `crc & 1` chooses between the two shifts.
pub crc_bit : ℕ → ℕ
crc_bit crc =
    if bit_and crc 1 == 0 then crc / 2 ^ 1 % 2 ^ 16 else bit_xor (crc / 2 ^ 1) 0x8408 % 2 ^ 16

-- The inner loop, by the turns left.
pub crc_bits : ℕ → ℕ → ℕ
unfolding crc_bit
crc_bits zero crc = crc
crc_bits (suc n) crc = crc_bits n (crc_bit crc)

-- The loop over the bytes.
pub crc_bytes : List ℕ → ℕ → ℕ
unfolding crc_bits
crc_bytes [] crc = crc
crc_bytes (byte ∷ rest) crc = crc_bytes rest (crc_bits 8 (bit_xor crc byte % 2 ^ 16))

unfoldable pub crc16_x25 : List ℕ → ℕ
unfolding crc_bytes
crc16_x25 bytes = bit_xor (crc_bytes bytes 0xFFFF) 0xFFFF % 2 ^ 16

-- The checksum is a `uint16_t`.
pub crc16_x25-lt : (bytes : List ℕ) → crc16_x25 bytes < 2 ^ 16
unfolding crc16_x25
crc16_x25-lt bytes = omega arith

-- The check value of CRC-16/X-25, over the text "123456789".
check_value : crc16_x25 (0x31 ∷ 0x32 ∷ 0x33 ∷ 0x34 ∷ 0x35 ∷ 0x36 ∷ 0x37 ∷ 0x38 ∷ 0x39 ∷ []) ≡ 0x906E
unfolding crc16_x25
check_value = refl
