-- ===== src/Gt06/Server.antt =====
-- `Gt06TcpServer::handleConnection`: one connection's thread. What the socket and the owner of the
-- server do is a list of events, one for each turn of the loop.
pub mod Drain
pub mod Identity
use karshipta.Common.{
  ℕ, zero, suc, ◌+◌, ◌-◌, Bool, true, false, List, [], ◌∷◌, ◌++◌, Option, none, some, ltb, length,
  drop, ◌>>=◌, Text, text,
}
use karshipta.Messages.{Numbers, Herald, generic_tracker}
use karshipta.Gt06.Types.{
  login, location, heartbeat, unsupported, Location, ParsedPacket, ParseResult, ok, incomplete,
  invalid, Platform,
}
use karshipta.Gt06.Frame.{parse_frame}
use karshipta.Gt06.Ack.{build_ack}

abbrev pub max_frame_buffer_size : ℕ
max_frame_buffer_size = 32768

-- `imei` and `buffer`, the variables that live as long as the connection.
pub record Connection : Type 0 where
  pub imei : Option Text
  pub buffer : List ℕ

-- What the thread does to others: it notes the device's identity in the log, hands a message to the
-- ward manager, writes to the socket.
pub data Action (D F : Type 0) : Type 0 where
  identified : Text → Action D F
  ingest : Herald D F → Action D F
  send : List ℕ → Action D F

-- How a loop was left, with the variables and the actions so far.
pub record Drained (D F : Type 0) : Type 0 where
  pub connection : Connection
  pub actions : List (Action D F)
  pub desync : Bool

module _ {D F : Type 0} (numbers : Numbers D F) where
  pub build_herald_message : Text → Location D → Herald D F
  build_herald_message imei fix = record {
    entity_id = imei;
    timestamp_ms = fix.timestamp_ms;
    entity_class = generic_tracker;
    position = some (record {
      latitude_deg = fix.latitude_deg;
      longitude_deg = fix.longitude_deg;
      altitude_msl_m = numbers.float_zero;
      altitude_rel_m = numbers.float_zero;
    });
    velocity = none;
    battery = none;
    gps = some (record { num_satellites = fix.satellites; hdop = numbers.float_zero });
    health_ok = fix.gps_valid;
    source = text "gt06";
    tags = [];
    org_id = [];
  }

  -- `case kLocation`: a fix that comes before the login is dropped.
  pub report_fix : Option Text → Location D → List (Action D F)
  unfolding build_herald_message
  report_fix none fix = []
  report_fix (some imei) fix = ingest (build_herald_message imei fix) ∷ []

  -- `switch (packet.type)`
  pub handle_packet : Option Text → ParsedPacket D → Option Text × List (Action D F)
  unfolding report_fix
  handle_packet imei packet = elim packet.type [
    | login ↦ elim packet.imei [
      | none ↦ (imei, [])
      | some digits ↦ (some digits, identified digits ∷ [])
    ]
    | location ↦ elim packet.location [ none ↦ (imei, []) | some fix ↦ (imei, report_fix imei fix) ]
    | heartbeat ↦ (imei, [])
    | unsupported ↦ (imei, [])
  ]

  -- The ack is written if it is not empty.
  pub send_ack : ParsedPacket D → List (Action D F)
  send_ack packet = elim (build_ack packet.type packet.serial_number) [
    | [] ↦ []
    | byte ∷ rest ↦ send (byte ∷ rest) ∷ []
  ]

module _ {D F : Type 0} (platform : Platform D) (numbers : Numbers D F) where
  -- What a turn of the inner loop does with the parser's answer; `continue` is the next turn.
  pub act_on :
      (Connection → Option (Drained D F)) → Connection → ParseResult D → Option (Drained D F)
  unfolding handle_packet send_ack
  act_on continue c r = elim r.result [
    | incomplete ↦ some (record {
      connection = c;
      actions = [];
      desync = ltb max_frame_buffer_size (length c.buffer);
    })
    | invalid ↦ some (record { connection = c; actions = []; desync = true })
    | ok ↦
        let (imei', handled) = handle_packet numbers c.imei r.packet in
        continue (record { imei = imei'; buffer = drop r.consumed_bytes c.buffer }) >>= λ later.
        some (record later { actions = handled ++ (send_ack numbers r.packet ++ later.actions) })
  ]

  -- The inner loop, on fuel: `none` is a read outside the buffer, or no fuel left.
  pub drain : ℕ → Connection → Option (Drained D F)
  unfolding act_on
  drain zero c = none
  drain (suc fuel) c = parse_frame platform c.buffer >>= act_on (drain fuel) c

  -- A turn of the loop that received `chunk`. Every frame takes a byte at least, so the fuel suffices.
  pub receive : Connection → List ℕ → Option (Drained D F)
  unfolding drain
  receive c chunk =
      drain (suc (length (c.buffer ++ chunk))) (record c { buffer = c.buffer ++ chunk })

-- One turn of the outer loop, as its environment decides it: the server is stopping or the
-- connection is terminated; the poll times out, fails or reports a close; `recv` gives nothing; bytes
-- arrive.
pub data Event : Type 0 where
  stopping timeout poll_error close_request recv_failed : Event
  received : List ℕ → Event

-- The thread's end is counted and announced.
pub record Handled (D F : Type 0) : Type 0 where
  pub connection : Connection
  pub actions : List (Action D F)
  pub connected_clients : ℕ
  pub terminated : Bool

module _ {D F : Type 0} (platform : Platform D) (numbers : Numbers D F) where
  -- The outer loop. At the end of the list the thread is still running.
  pub serve : ℕ → Connection → List Event → Option (Handled D F)
  unfolding receive
  serve clients c [] =
      some
        (record { connection = c; actions = []; connected_clients = clients; terminated = false })
  serve clients c (timeout ∷ events) = serve clients c events
  serve clients c (received chunk ∷ events) = receive platform numbers c chunk >>= λ d.
      elim d.desync [
        | true ↦ some (record {
          connection = d.connection;
          actions = d.actions;
          connected_clients = clients - 1;
          terminated = true;
        })
        | false ↦ serve clients d.connection events >>= λ later.
            some (record later { actions = d.actions ++ later.actions })
      ]
  serve clients c (_ ∷ events) =
      some (record {
        connection = c;
        actions = [];
        connected_clients = clients - 1;
        terminated = true;
      })

  -- `clients` is `connected_clients_` before the thread starts.
  unfoldable pub handle_connection : ℕ → List Event → Option (Handled D F)
  unfolding serve
  handle_connection clients events =
      serve (clients + 1) (record { imei = none; buffer = [] }) events
