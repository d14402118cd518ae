-- ===== src/Gt06/Tests.antt =====
-- The functions of the GT06 parser and listener on small inputs, and the theorems at inputs that meet
-- their hypotheses.
use karshipta.Common.{
  ℕ, ◌+◌, ◌/◌, ◌≡◌, refl, true, false, List, [], ◌∷◌, ◌++◌, none, some, arith, Returns, Text, text,
}
use karshipta.Messages.{Numbers, generic_tracker}
use karshipta.Gt06.Types.{login, heartbeat, unsupported, Platform}
use karshipta.Gt06.Crc.{crc16_x25}
use karshipta.Gt06.Content.{bare_packet, parse_content, decode_imei}
use karshipta.Gt06.Content.Imei.{pack, decode_imei-pack}
use karshipta.Gt06.Ack.{build_ack}
use karshipta.Gt06.Ack.RoundTrip.{parse_frame-build_ack}
use karshipta.Gt06.Frame.{frame, answer, parse_frame}
use karshipta.Gt06.Frame.Outcome.{Outcome, parse_frame-Outcome}
use karshipta.Gt06.Frame.RoundTrip.{standard_frame, packet_of, parse_frame-standard_frame}
use karshipta.Gt06.Frame.Segments.{FrontAnswer, parse_frame-front}
use karshipta.Gt06.Server.{
  identified, ingest, send, Event, received, timeout, close_request, Handled, handle_connection,
  receive,
}
use karshipta.Gt06.Server.Drain.{Settled, Accounted, receive-Settled, handle_connection-Accounted}
use karshipta.Gt06.Server.Identity.{Attributed, handle_connection-Attributed}

-- Numbers stand for the floating point values.
abbrev plain : Platform ℕ
plain = record {
  of_uint32 = λ n. n;
  literal = λ n. n;
  divide = λ a b. a / b;
  negate = λ n. n + 1;
  timegm = λ t. t.tm_sec;
}

abbrev zeros : Numbers ℕ ℕ
zeros = record { double_zero = 0; float_zero = 0 }

-- The degenerate capture of six bytes that the source cites.
abbrev six_bytes : List ℕ
six_bytes = 0x78 ∷ 0x78 ∷ 0x01 ∷ 0x08 ∷ 0x0D ∷ 0x0A ∷ []

six_bytes_parse : parse_frame plain six_bytes ≡ some (frame 6 (bare_packet unsupported 0) false)
unfolding parse_frame
six_bytes_parse = refl

parse_frame-Outcome_example : Returns (Outcome six_bytes) (parse_frame plain six_bytes)
parse_frame-Outcome_example = parse_frame-Outcome plain six_bytes

parse_frame-standard_frame_example :
    parse_frame plain (standard_frame 0x23 (1 ∷ 2 ∷ []) 515 ++ six_bytes)
    ≡ some (frame 12 (bare_packet heartbeat 515) false)
unfolding packet_of parse_content answer
parse_frame-standard_frame_example =
    parse_frame-standard_frame plain 0x23 (1 ∷ 2 ∷ []) 515 six_bytes (omega arith) (omega arith)

parse_frame-build_ack_example :
    (parse_frame plain (build_ack heartbeat 7 ++ [])
      ≡ some (frame 10 (bare_packet heartbeat 7) false))
    × (parse_frame plain (build_ack login 7 ++ [])
        ≡ some (frame 10 (bare_packet unsupported 7) false))
parse_frame-build_ack_example = parse_frame-build_ack plain 7 [] (omega arith)

-- A heartbeat with serial number 0x0D0A, cut behind the serial number.
abbrev torn_front : List ℕ
torn_front = 120 ∷ 120 ∷ 5 ∷ 35 ∷ 13 ∷ 10 ∷ []

abbrev torn_back : List ℕ
torn_back = 97 ∷ 244 ∷ 13 ∷ 10 ∷ []

torn_splits : standard_frame 0x23 [] 0x0D0A ≡ torn_front ++ torn_back
unfolding crc16_x25
torn_splits = refl

parse_frame-front_example : Returns (FrontAnswer torn_front) (parse_frame plain torn_front)
parse_frame-front_example = parse_frame-front 0x23 [] 0x0D0A torn_front torn_back plain torn_splits

abbrev imei_pairs : List (ℕ × ℕ)
imei_pairs = (6, 1) ∷ (8, 4) ∷ (5, 0) ∷ (4, 1) ∷ (2, 3) ∷ (4, 5) ∷ (6, 7) ∷ []

decode_imei-pack_example : decode_imei (pack ((0, 8) ∷ imei_pairs)) ≡ text "861845041234567"
decode_imei-pack_example = (decode_imei-pack 0 8 imei_pairs (omega arith)).0 (refl, refl)

receive-Settled_example :
    Returns
      (Settled {D = ℕ} {F = ℕ} ([] ++ six_bytes))
      (receive plain zeros (record { imei = none; buffer = [] }) six_bytes)
receive-Settled_example =
    receive-Settled plain zeros (record { imei = none; buffer = [] }) six_bytes

abbrev login_frame : List ℕ
login_frame =
    120 ∷ 120 ∷ 13 ∷ 1 ∷ 8 ∷ 97 ∷ 132 ∷ 80 ∷ 65 ∷ 35 ∷ 69 ∷ 103 ∷ 0 ∷ 1 ∷ 190 ∷ 123 ∷ 13 ∷ 10 ∷ []

abbrev location_frame : List ℕ
location_frame =
    120 ∷ 120 ∷ 24 ∷ 16 ∷ 24 ∷ 1 ∷ 2 ∷ 3 ∷ 4 ∷ 5 ∷ 207 ∷ 7 ∷ 0 ∷ 27 ∷ 119 ∷ 64 ∷ 0 ∷ 54 ∷ 238 ∷ 128
    ∷ 0 ∷ 20 ∷ 0 ∷ 0 ∷ 2 ∷ 168 ∷ 214 ∷ 13 ∷ 10 ∷ []

abbrev session : List Event
session = received login_frame ∷ timeout ∷ received location_frame ∷ close_request ∷ []

abbrev device : Text
device = text "861845041234567"

abbrev outcome : Handled ℕ ℕ
outcome = record {
  connection = record { imei = some device; buffer = [] };
  actions =
      identified device
      ∷ send (120 ∷ 120 ∷ 5 ∷ 1 ∷ 0 ∷ 1 ∷ 217 ∷ 220 ∷ 13 ∷ 10 ∷ [])
      ∷ ingest (record {
        entity_id = device;
        timestamp_ms = 5000;
        entity_class = generic_tracker;
        position = some (record {
          latitude_deg = 1;
          longitude_deg = 2;
          altitude_msl_m = 0;
          altitude_rel_m = 0;
        });
        velocity = none;
        battery = none;
        gps = some (record { num_satellites = 7; hdop = 0 });
        health_ok = true;
        source = text "gt06";
        tags = [];
        org_id = [];
      })
      ∷ [];
  connected_clients = 3;
  terminated = true;
}

session_runs : handle_connection plain zeros 3 session ≡ some outcome
unfolding handle_connection parse_frame build_ack crc16_x25
session_runs = refl

handle_connection-Attributed_example : Attributed none outcome.actions
handle_connection-Attributed_example =
    handle_connection-Attributed plain zeros 3 session outcome session_runs

handle_connection-Accounted_example :
    Returns (Accounted plain zeros 3) (handle_connection plain zeros 3 session)
handle_connection-Accounted_example = handle_connection-Accounted plain zeros 3 session
