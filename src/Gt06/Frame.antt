-- ===== src/Gt06/Frame.antt =====
-- `Gt06Parser::parse_frame`: where the frame at the front of a buffer ends, and its packet.
pub mod Stop
pub mod Outcome
pub mod RoundTrip
pub mod Segments
use karshipta.Common.{
  ℕ, ◌+◌, ◌-◌, ◌*◌, ◌^◌, bit_or, Bool, true, false, not, ◌&&◌, List, [], ◌∷◌, Option, none, some,
  ltb, leb, ◌==◌, if◌then◌else◌, length, ◌>>=◌,
}
use karshipta.Gt06.Crc.{crc16_x25}
use karshipta.Gt06.Content.{read, subspan, read_u16, bare_packet, parse_content}
use karshipta.Gt06.Types.{
  login, unsupported, ParsedPacket, FrameResult, ok, incomplete, invalid, ParseResult, Platform,
}

abbrev pub stop_byte1 : ℕ
stop_byte1 = 0x0D

abbrev pub stop_byte2 : ℕ
stop_byte2 = 0x0A

-- The position of the first stop marker's end, searched from index `i` on, where the list begins.
pub find_stop : List ℕ → ℕ → Option ℕ
find_stop [] i = none
find_stop (a ∷ []) i = none
find_stop (a ∷ b ∷ rest) i =
    let later = find_stop (b ∷ rest) (i + 1) in
    if (a == stop_byte1) && (b == stop_byte2) then some (i + 2) else later

-- Whether the frame is extended, by its two start bytes.
pub start_marker : ℕ → ℕ → Option Bool
start_marker b0 b1 =
    if (b0 == 0x78) && (b1 == 0x78)
    then some false
    else if (b0 == 0x79) && (b1 == 0x79)
    then some true
    else none

pub length_field_width : Bool → ℕ
length_field_width extended = if extended then 2 else 1

pub read_length_value : Bool → List ℕ → Option ℕ
read_length_value extended bytes = elim extended [
  | true ↦ read bytes 2 >>= λ high. read bytes 3 >>= λ low. some (bit_or (high * 2 ^ 8) low)
  | false ↦ read bytes 2
]

-- `declared_length_checks_out`
pub check_declared_length : List ℕ → ℕ → ℕ → Option Bool
check_declared_length bytes length_value total =
    elim (leb 5 length_value && leb total (length bytes)) [
      | true ↦ read bytes (total - 2) >>= λ a.
          read bytes (total - 1) >>= λ b. some ((a == stop_byte1) && (b == stop_byte2))
      | false ↦ some false
    ]

module _ {D : Type 0} where
  -- `{result}`: the other fields have their defaults.
  pub no_frame : FrameResult → ParseResult D
  unfolding bare_packet
  no_frame result = record {
    result = result;
    consumed_bytes = 0;
    packet = bare_packet login 0;
    checksum_mismatch = false;
  }

  unfoldable pub frame : ℕ → ParsedPacket D → Bool → ParseResult D
  frame total packet mismatch = record {
    result = ok;
    consumed_bytes = total;
    packet = packet;
    checksum_mismatch = mismatch;
  }

  -- The answer for a framed packet: `parse_content` gives `none` for a recognized type with content
  -- that it cannot use.
  unfoldable pub answer : ℕ → ℕ → Bool → Option (ParsedPacket D) → ParseResult D
  unfolding frame bare_packet
  answer total serial mismatch none = frame total (bare_packet unsupported serial) false
  answer total serial mismatch (some packet) = frame total packet mismatch

module _ {D : Type 0} (platform : Platform D) where
  -- The packet of a frame whose fields lie in the buffer.
  pub decode_packet : List ℕ → ℕ → ℕ → ℕ → Option (ParseResult D)
  unfolding answer read_u16 subspan parse_content
  decode_packet bytes total type_offset content_length = do
    let serial_offset = type_offset + 1 + content_length
    let checksum_offset = serial_offset + 2
    type_byte ← read bytes type_offset
    content ← subspan bytes (type_offset + 1) content_length
    serial_number ← read_u16 bytes serial_offset
    received_checksum ← read_u16 bytes checksum_offset
    covered ← subspan bytes 2 (checksum_offset - 2)
    packet ← parse_content platform type_byte content serial_number
    some (answer total serial_number (not (crc16_x25 covered == received_checksum)) packet)

  -- The part of `parse_frame` that follows once the frame's end is known.
  pub decode_frame : List ℕ → ℕ → ℕ → ℕ → Option (ParseResult D)
  unfolding decode_packet frame bare_packet
  decode_frame bytes total width length_value =
      let content_length = if ltb length_value 5 then 0 else length_value - 5 in
      let checksum_offset = 2 + width + 1 + content_length + 2 in
      elim (leb 5 length_value && leb (checksum_offset + 2) (length bytes)) [
        | true ↦ decode_packet bytes total (2 + width) content_length
        | false ↦ some (frame total (bare_packet unsupported 0) false)
      ]

  -- The part of `parse_frame` that finds the frame's end.
  pub parse_delimited : Bool → List ℕ → Option (ParseResult D)
  unfolding decode_frame find_stop check_declared_length read_length_value length_field_width
      no_frame
  parse_delimited extended bytes = do
    let width = length_field_width extended
    length_value ← read_length_value extended bytes
    let declared = 2 + width + length_value + 2
    checks_out ← check_declared_length bytes length_value declared
    elim (if checks_out then some declared else find_stop bytes 0) [
      | none ↦ some (no_frame incomplete)
      | some total ↦ decode_frame bytes total width length_value
    ]

  unfoldable pub parse_frame : List ℕ → Option (ParseResult D)
  unfolding parse_delimited start_marker length_field_width no_frame
  parse_frame bytes = elim (ltb (length bytes) 2) [
    | true ↦ some (no_frame incomplete)
    | false ↦ read bytes 0 >>= λ b0. read bytes 1 >>= λ b1. elim (start_marker b0 b1) [
      | none ↦ some (no_frame invalid)
      | some extended ↦ elim (ltb (length bytes) (2 + length_field_width extended)) [
        | true ↦ some (no_frame incomplete)
        | false ↦ parse_delimited extended bytes
      ]
    ]
  ]
