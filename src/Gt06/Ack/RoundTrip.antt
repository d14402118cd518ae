-- ===== src/Gt06/Ack/RoundTrip.antt =====
-- The acks are frames of the protocol.
use karshipta.Common.{ℕ, ◌/◌, ◌%◌, ◌^◌, ◌<◌, ◌≡◌, refl, bit_and, List, [], ◌++◌, some, arith, false}
use karshipta.Common.Bits.{bit_and-mask}
use karshipta.Gt06.Crc.{crc16_x25, crc16_x25-lt}
use karshipta.Gt06.Types.{login, heartbeat, unsupported, Platform}
use karshipta.Gt06.Content.{bare_packet, parse_content, parse_login}
use karshipta.Gt06.Frame.{frame, answer, parse_frame}
use karshipta.Gt06.Frame.RoundTrip.{standard_frame, covered, packet_of, parse_frame-standard_frame}
use karshipta.Gt06.Ack.{ack_frame, build_ack}

low_byte : (v : ℕ) → bit_and v 0xFF % 2 ^ 8 ≡ v % 2 ^ 8
low_byte v = omega (arith, bit_and-mask 8 v)

high_byte : (v : ℕ) → v < 2 ^ 16 → v / 2 ^ 8 % 2 ^ 8 ≡ v / 2 ^ 8
high_byte v h = omega arith

ack_frame-standard_frame :
    (type_byte serial : ℕ)
    → serial < 2 ^ 16
    → ack_frame type_byte serial ≡ standard_frame type_byte [] serial
unfolding ack_frame
ack_frame-standard_frame type_byte serial h =
    rw (low_byte serial, high_byte serial h, low_byte (crc16_x25 (covered type_byte [] serial)))
      (rw (high_byte (crc16_x25 (covered type_byte [] serial)) (crc16_x25-lt _)) refl)

module _ {D : Type 0} (platform : Platform D) (serial : ℕ) (rest : List ℕ) where
  ack-parses :
      (type_byte : ℕ)
      → serial < 2 ^ 16
      → parse_frame platform (ack_frame type_byte serial ++ rest)
        ≡ packet_of platform 10 type_byte [] serial
  ack-parses type_byte h =
      rw (ack_frame-standard_frame type_byte serial h)
        (parse_frame-standard_frame platform type_byte [] serial rest (omega arith) h)

  -- The ack of a heartbeat is itself a well-formed heartbeat frame of 10 bytes with the same serial
  -- number and a right checksum; the ack of a login is a frame of the same size, serial number and
  -- checksum, which, having no IMEI, parses as unsupported.
  pub parse_frame-build_ack :
      serial < 2 ^ 16
      → (parse_frame platform (build_ack heartbeat serial ++ rest)
          ≡ some (frame 10 (bare_packet heartbeat serial) false))
        × (parse_frame platform (build_ack login serial ++ rest)
            ≡ some (frame 10 (bare_packet unsupported serial) false))
  unfolding build_ack packet_of parse_content parse_login answer
  parse_frame-build_ack h = (ack-parses 0x23 h, ack-parses 0x01 h)
