-- ===== src/Gt06/Ack.antt =====
-- `Gt06Parser::build_ack`.
pub mod RoundTrip
use karshipta.Common.{ℕ, ◌/◌, ◌%◌, ◌^◌, bit_and, List, [], ◌∷◌, ◌++◌}
use karshipta.Gt06.Crc.{crc16_x25}
use karshipta.Gt06.Content.{type_login, type_heartbeat}
use karshipta.Gt06.Frame.{stop_byte1, stop_byte2}
use karshipta.Gt06.Types.{PacketType, login, location, heartbeat, unsupported}

-- The ack with no content for a type byte.
pub ack_frame : ℕ → ℕ → List ℕ
ack_frame type_byte serial =
    let body = 5 ∷ type_byte ∷ (serial / 2 ^ 8 % 2 ^ 8) ∷ (bit_and serial 0xFF % 2 ^ 8) ∷ [] in
    let checksum = crc16_x25 body in
    0x78
    ∷ 0x78
    ∷ (body
        ++ ((checksum / 2 ^ 8 % 2 ^ 8)
            ∷ (bit_and checksum 0xFF % 2 ^ 8)
            ∷ stop_byte1
            ∷ stop_byte2
            ∷ []))

unfoldable pub build_ack : PacketType → ℕ → List ℕ
unfolding ack_frame
build_ack login serial = ack_frame type_login serial
build_ack location serial = []
build_ack heartbeat serial = ack_frame type_heartbeat serial
build_ack unsupported serial = []
