-- ===== src/Relay/Tests.antt =====
-- The relay transport on a small session, and the theorems at inputs that meet their hypotheses.
use karshipta.Common.{◌≡◌, refl, ◌⊎◌, true, false, List, [], ◌∷◌, some, none, arith, Text, text}
use karshipta.Relay.{
  Relay, connected, disconnected, relay_send, relay_close, Event, disconnects, enters, closes,
  drops, forgets, ends, ready, status, broadcast_id, broadcast_send, expand_leading_tilde,
  default_peer_store_path, is_current, run,
}
use karshipta.Relay.Ids.{
  IdsFresh, Rising, trace, broadcast_isolated, trace-Rising, trace-reconnect, trace-disconnect,
}

abbrev console : Text
console = text "console"

abbrev session : Relay
session = record {
  credentials = record {
    device_id = text "gateway";
    private_key_path = [];
    device_token = text "token";
  };
  running = true;
  client = true;
  current_peer_id = some console;
  assigned_id = 4;
  next_client_id = 5;
  on_receive = true;
  on_connect = true;
  on_disconnect = true;
  stop_calls = 0;
  closing = 0;
  dropping = 0;
  forgetting = 0;
  ending = 0;
}

abbrev alone : Relay
alone = record session { current_peer_id = none }

-- The console is lost, and another peer takes its place.
abbrev takeover : List Event
takeover = status console false ∷ ready (text "intruder") ∷ []

alone-IdsFresh : IdsFresh 3 alone
alone-IdsFresh = record {
  positive = omega arith;
  below = omega arith;
  assigned = λ some_peer. omega arith;
  room_left = omega arith;
}

expands :
    expand_leading_tilde (some (text "/home/op")) default_peer_store_path
    ≡ text "/home/op/.relayly/peers.json"
unfolding expand_leading_tilde
expands = refl

sends_while_current :
    broadcast_send session (broadcast_id session) (1 ∷ []) ≡ relay_send console (1 ∷ []) ∷ []
unfolding broadcast_send broadcast_id
sends_while_current = refl

broadcast_isolated_example :
    let sent = broadcast_send (run session (takeover)) (broadcast_id session) (1 ∷ []) in
    (sent ≡ [])
    ⊎ ((peer : Text) × (session.current_peer_id ≡ some peer)
        × (sent ≡ relay_send peer (1 ∷ []) ∷ []))
broadcast_isolated_example = broadcast_isolated session takeover (1 ∷ []) (record {
  positive = omega arith;
  below = omega arith;
  assigned = λ some_peer. omega arith;
  room_left = omega arith;
})

trace-Rising_example : Rising 5 (trace session takeover)
trace-Rising_example = trace-Rising takeover session (record {
  positive = omega arith;
  below = omega arith;
  assigned = λ some_peer. omega arith;
  room_left = omega arith;
})

trace-reconnect_example :
    trace alone (ready console ∷ status console false ∷ ready console ∷ [])
    ≡ connected 5 ∷ disconnected 5 ∷ connected 6 ∷ []
unfolding is_current
trace-reconnect_example = trace-reconnect 2 alone console alone-IdsFresh refl refl refl

trace-disconnect_example :
    (trace session
        (disconnects 4 ∷ enters ∷ closes ∷ status console false ∷ drops ∷ forgets ∷ ends ∷ [])
      ≡ relay_close ∷ disconnected 4 ∷ [])
    × (trace session
          (disconnects 4 ∷ enters ∷ closes ∷ drops ∷ status console false ∷ forgets ∷ ends ∷ [])
        ≡ relay_close ∷ disconnected 4 ∷ [])
    × (trace session
          (disconnects 4 ∷ enters ∷ closes ∷ drops ∷ forgets ∷ status console false ∷ ends ∷ [])
        ≡ relay_close ∷ [])
trace-disconnect_example = trace-disconnect session 4 console refl refl refl refl refl (omega arith)
