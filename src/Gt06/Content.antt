-- ===== src/Gt06/Content.antt =====
-- What gt06_parser.cpp makes of a frame's content. A `span` of bytes is a list of numbers; a read or
-- a subspan out of its bounds, undefined in the source, makes the result `none`.
pub mod Total
pub mod Imei
use karshipta.Common.{
  ℕ, ◌+◌, ◌*◌, ◌/◌, ◌%◌, ◌^◌, bit_and, bit_or, Bool, true, false, not, ◌&&◌, List, [], ◌∷◌, Option,
  none, some, ltb, leb, ◌==◌, if◌then◌else◌, length, get_elem?, take, drop, ◌>>=◌, Text, sub_ℕ,
}
use karshipta.Gt06.Types.{
  PacketType, login, location, heartbeat, unsupported, Location, ParsedPacket, Platform,
}

abbrev pub type_login : ℕ
type_login = 0x01

abbrev pub type_gps_location : ℕ
type_gps_location = 0x10

abbrev pub type_heartbeat : ℕ
type_heartbeat = 0x23

abbrev pub location_content_length : ℕ
location_content_length = 19

-- `data[i]`
abbrev pub read : List ℕ → ℕ → Option ℕ
read bytes i = get_elem? bytes i

-- `data.subspan(offset, count)`
unfoldable pub subspan : List ℕ → ℕ → ℕ → Option (List ℕ)
subspan bytes offset count =
    if leb (offset + count) (length bytes) then some (take count (drop offset bytes)) else none

-- The two digits of each byte.
unfoldable pub imei_digits : List ℕ → Text
imei_digits [] = []
imei_digits (byte ∷ rest) =
    (b'0' + bit_and (byte / 2 ^ 4) 0x0F) ∷ (b'0' + bit_and byte 0x0F) ∷ imei_digits rest

-- A leading '0' of 16 digits is padding.
unfoldable pub strip_padding : Text → Text
strip_padding [] = []
strip_padding (c ∷ cs) = if (length (c ∷ cs) == 16) && (c == b'0') then cs else c ∷ cs

unfoldable pub decode_imei : List ℕ → Text
unfolding imei_digits strip_padding
decode_imei bytes = strip_padding (imei_digits bytes)

-- `(static_cast<uint16_t>)(bytes[i] << 8 | bytes[i + 1])`
unfoldable pub read_u16 : List ℕ → ℕ → Option ℕ
read_u16 bytes i = do
  high ← read bytes i
  low ← read bytes (i + 1)
  some (bit_or (high * 2 ^ 8) low % 2 ^ 16)

unfoldable pub read_u32 : List ℕ → ℕ → Option ℕ
read_u32 bytes i = do
  b0 ← read bytes i
  b1 ← read bytes (i + 1)
  b2 ← read bytes (i + 2)
  b3 ← read bytes (i + 3)
  some (
      bit_or (bit_or (bit_or (b0 * 2 ^ 24 % 2 ^ 32) (b1 * 2 ^ 16 % 2 ^ 32)) (b2 * 2 ^ 8 % 2 ^ 32))
        b3)

-- `(flags & (1u << bit)) != 0`
abbrev pub has_flag : ℕ → ℕ → Bool
has_flag flags bit = not (bit_and flags (2 ^ bit) == 0)

module _ {D : Type 0} where
  unfoldable pub bare_packet : PacketType → ℕ → ParsedPacket D
  bare_packet type serial = record {
    type = type;
    serial_number = serial;
    imei = none;
    location = none;
  }

module _ {D : Type 0} (platform : Platform D) where
  open platform use {of_uint32, literal, divide, negate, timegm}

  -- `tm_year` counts from 1900 and `tm_mon` from 0.
  unfoldable pub build_timestamp_ms : ℕ → ℕ → ℕ → ℕ → ℕ → ℕ → ℕ
  build_timestamp_ms year month day hour minute second =
      timegm (record {
        tm_year = year + 100;
        tm_mon = sub_ℕ month 1;
        tm_mday = day;
        tm_hour = hour;
        tm_min = minute;
        tm_sec = second;
      })
      * 1000
      % 2 ^ 64

  -- `static_cast<double>(raw) / 60.0 / 30000.0`, negated for one hemisphere.
  unfoldable pub degrees : ℕ → Bool → D
  degrees raw negative =
      let value = divide (divide (of_uint32 raw) (literal 60)) (literal 30000) in
      if negative then negate value else value

  unfoldable pub parse_location : List ℕ → Option (Location D)
  unfolding read_u16 read_u32 build_timestamp_ms degrees
  parse_location content = do
    flagged_satellites ← read content 7
    latitude ← read_u32 content 8
    longitude ← read_u32 content 12
    flags ← read_u16 content 17
    year ← read content 0
    month ← read content 1
    day ← read content 2
    hour ← read content 3
    minute ← read content 4
    second ← read content 5
    some (record {
      timestamp_ms = build_timestamp_ms year month day hour minute second;
      latitude_deg = degrees latitude (not (has_flag flags 10));
      longitude_deg = degrees longitude (has_flag flags 11);
      gps_valid = has_flag flags 12;
      satellites = bit_and flagged_satellites 0x0F;
    })

  -- `case kTypeLogin`
  unfoldable pub parse_login : List ℕ → ℕ → Option (Option (ParsedPacket D))
  unfolding decode_imei subspan bare_packet
  parse_login content serial = elim (ltb (length content) 8) [
    | true ↦ some none
    | false ↦ subspan content 0 8 >>= λ bytes.
        some (some (record (bare_packet login serial) { imei = some (decode_imei bytes) }))
  ]

  -- `case kTypeGpsLocation`
  unfoldable pub parse_gps_location : List ℕ → ℕ → Option (Option (ParsedPacket D))
  unfolding parse_location bare_packet
  parse_gps_location content serial = elim (ltb (length content) location_content_length) [
    | true ↦ some none
    | false ↦ read content 6 >>= λ length_validity. elim (length_validity == 0) [
      | true ↦ some none
      | false ↦ parse_location content >>= λ fix.
          some (some (record (bare_packet location serial) { location = some fix }))
    ]
  ]

  unfoldable pub parse_content : ℕ → List ℕ → ℕ → Option (Option (ParsedPacket D))
  unfolding parse_login parse_gps_location
  parse_content type_byte content serial =
      if type_byte == type_login
      then parse_login content serial
      else if type_byte == type_gps_location
      then parse_gps_location content serial
      else if type_byte == type_heartbeat
      then some (some (bare_packet heartbeat serial))
      else some (some (bare_packet unsupported serial))
