-- ===== src/Relay/Ids.antt =====
-- Client ids.
use karshipta.Common.{
  ℕ, suc, ◌+◌, ◌%◌, ◌^◌, ◌≤◌, ◌<◌, ◌≡◌, ◌≢◌, ◌⊎◌, inl, inr, true, false, List, [], ◌∷◌, ◌++◌, none,
  some, arith, length, Text, text_eq_refl, Option-cases,
}
use karshipta.Relay.{
  Relay, Action, connected, disconnected, receive, relay_send, relay_connect, relay_close, Event,
  starts, stops, enters, closes, drops, forgets, ends, sends, disconnects, broadcasts, ready,
  status, message, broadcast_id, broadcast_send, is_current, step, run,
}

-- Ids in use lie below the next one, and 0, which stands for no client, is not given out. `room` more
-- peers can be met before the counter wraps.
pub record IdsFresh (room : ℕ) (r : Relay) : Type 0 where
  pub positive : 0 < r.next_client_id
  pub below : r.assigned_id < r.next_client_id
  pub assigned : r.current_peer_id ≢ none → 0 < r.assigned_id
  pub room_left : r.next_client_id + room < 2 ^ 64

step-IdsFresh :
    (room : ℕ) (r : Relay) (event : Event) → IdsFresh (suc room) r → IdsFresh room (step r event).0
unfolding step
step-IdsFresh room r (starts home connects) v = ground arith
step-IdsFresh room r stops v = ground arith
step-IdsFresh room r enters v = ground arith
step-IdsFresh room r closes v = ground arith
step-IdsFresh room r drops v = ground arith
step-IdsFresh room r forgets v = ground arith
step-IdsFresh room r ends v = ground arith
step-IdsFresh room r (sends client bytes) v = ground arith
step-IdsFresh room r (disconnects client) v = ground arith
step-IdsFresh room r (broadcasts id bytes) v = ground arith
step-IdsFresh room r (ready peer) v = ground arith
step-IdsFresh room r (status peer online) v = ground arith
step-IdsFresh room r (message from payload) v = ground arith

-- While `id` was given out before, it belongs to `peer` or to nobody.
abbrev pub Belongs : ℕ → Text → Relay → Type 0
Belongs id peer r =
    (id < r.next_client_id)
    × ((current : Text) → r.current_peer_id ≡ some current → r.assigned_id ≡ id → current ≡ peer)

step-Belongs :
    (room id : ℕ) (peer : Text) (r : Relay) (event : Event)
    → IdsFresh (suc room) r
    → Belongs id peer r
    → Belongs id peer (step r event).0
unfolding step
step-Belongs room id peer r (starts home connects) v b =
    (ground arith, λ current e a. ground (arith, b.1 current))
step-Belongs room id peer r stops v b = (ground arith, λ current e a. ground (arith, b.1 current))
step-Belongs room id peer r enters v b = (ground arith, λ current e a. ground (arith, b.1 current))
step-Belongs room id peer r closes v b = (ground arith, λ current e a. ground (arith, b.1 current))
step-Belongs room id peer r drops v b = (ground arith, λ current e a. ground (arith, b.1 current))
step-Belongs room id peer r forgets v b = (ground arith, λ current e a. ground (arith, b.1 current))
step-Belongs room id peer r ends v b = (ground arith, λ current e a. ground (arith, b.1 current))
step-Belongs room id peer r (sends client bytes) v b = b
step-Belongs room id peer r (disconnects client) v b =
    (ground arith, λ current e a. ground (arith, b.1 current))
step-Belongs room id peer r (broadcasts sent bytes) v b = b
step-Belongs room id peer r (ready other) v b =
    (ground arith, λ current e a. ground (arith, b.1 current))
step-Belongs room id peer r (status other online) v b =
    (ground arith, λ current e a. ground (arith, b.1 current))
step-Belongs room id peer r (message from payload) v b = b

run-Belongs :
    (events : List Event) (id : ℕ) (peer : Text) (r : Relay)
    → IdsFresh (length events) r
    → Belongs id peer r
    → Belongs id peer (run r events)
unfolding run
run-Belongs [] id peer r v b = b
run-Belongs (event ∷ events) id peer r v b =
    run-Belongs events id peer (step r event).0 (step-IdsFresh (length events) r event v)
      (step-Belongs (length events) id peer r event v b)

-- A payload goes to the peer that the id belongs to, or nowhere.
send-Belongs :
    (id : ℕ) (peer : Text) (s : Relay) (bytes : List ℕ)
    → Belongs id peer s
    → (broadcast_send s id bytes ≡ []) ⊎ (broadcast_send s id bytes ≡ relay_send peer bytes ∷ [])
unfolding broadcast_send
send-Belongs id peer s bytes b = elim (Option-cases s.current_peer_id) [
  | inl nobody ↦ ground arith
  | inr (current, e) ↦ ground (arith, b.1 current)
]

-- Whatever the transport's owner and the relayly client do between the two halves of a broadcast, the
-- payload goes to the peer that was current when the broadcast began, or to nobody: never to another
-- peer. (The client ids must not wrap meanwhile.)
pub broadcast_isolated :
    (r : Relay) (events : List Event) (bytes : List ℕ)
    → IdsFresh (length events) r
    → let sent = broadcast_send (run r events) (broadcast_id r) bytes in
      (sent ≡ [])
      ⊎ ((peer : Text) × (r.current_peer_id ≡ some peer) × (sent ≡ relay_send peer bytes ∷ []))
unfolding broadcast_id
broadcast_isolated r events bytes v = elim (Option-cases r.current_peer_id) [
  | inl nobody ↦ inl (unfold broadcast_send in ground arith)
  | inr (peer, e) ↦
      let b : Belongs (broadcast_id r) peer r =
        (ground (arith, v.below), λ current e' a. ground arith) in
      elim (send-Belongs (broadcast_id r) peer (run r events) bytes
        (run-Belongs events (broadcast_id r) peer r v b)) [
          | inl none_sent ↦ inl none_sent
          | inr one_sent ↦ inr (peer, e, one_sent)
        ]
]

-- What a sequence of calls makes the transport do.
abbrev pub trace : Relay → List Event → List Action
trace r [] = []
trace r (event ∷ events) = (step r event).1 ++ trace (step r event).0 events

-- The ids announced by `on_connect` rise, from `low` on.
abbrev pub Rising : ℕ → List Action → Type 0
Rising low [] = Unit {0}
Rising low (connected id ∷ actions) = (low ≤ id) × Rising (suc id) actions
Rising low (disconnected id ∷ actions) = Rising low actions
Rising low (receive id bytes ∷ actions) = Rising low actions
Rising low (relay_send peer bytes ∷ actions) = Rising low actions
Rising low (relay_connect key peers ∷ actions) = Rising low actions
Rising low (relay_close ∷ actions) = Rising low actions

Rising-lower :
    (low low' : ℕ) (actions : List Action) → low ≤ low' → Rising low' actions → Rising low actions
Rising-lower low low' [] b h = tt
Rising-lower low low' (connected id ∷ actions) b h = (omega (arith, h.0), h.1)
Rising-lower low low' (disconnected id ∷ actions) b h = Rising-lower low low' actions b h
Rising-lower low low' (receive id bytes ∷ actions) b h = Rising-lower low low' actions b h
Rising-lower low low' (relay_send peer bytes ∷ actions) b h = Rising-lower low low' actions b h
Rising-lower low low' (relay_connect key peers ∷ actions) b h = Rising-lower low low' actions b h
Rising-lower low low' (relay_close ∷ actions) b h = Rising-lower low low' actions b h

-- The counter does not wrap while there is room.
next-unwrapped : (room n : ℕ) → n + suc room < 2 ^ 64 → (n + 1) % 2 ^ 64 ≡ suc n
next-unwrapped room n b = omega arith

step-Rising :
    (room : ℕ) (r : Relay) (event : Event) (later : List Action)
    → IdsFresh (suc room) r
    → Rising (step r event).0.next_client_id later
    → Rising r.next_client_id ((step r event).1 ++ later)
unfolding step
step-Rising room r (starts home connects) later v h = ground arith
step-Rising room r stops later v h = ground arith
step-Rising room r enters later v h = ground arith
step-Rising room r closes later v h = ground arith
step-Rising room r drops later v h = ground arith
step-Rising room r forgets later v h = ground arith
step-Rising room r ends later v h = ground arith
step-Rising room r (sends client bytes) later v h = ground arith
step-Rising room r (disconnects client) later v h = ground arith
step-Rising room r (broadcasts id bytes) later v h = ground arith
step-Rising room r (ready peer) later v h =
    let q = next-unwrapped room r.next_client_id v.room_left in
    let h' = Rising-lower r.next_client_id (suc r.next_client_id) later in ground arith
step-Rising room r (status peer online) later v h = ground arith
step-Rising room r (message from payload) later v h = ground arith

-- No client id is announced twice: over any sequence of calls the ids that `on_connect` gets rise
-- strictly, from the next free id on. (The ids must not wrap meanwhile.)
pub trace-Rising :
    (events : List Event) (r : Relay)
    → IdsFresh (length events) r
    → Rising r.next_client_id (trace r events)
trace-Rising [] r v = tt
trace-Rising (event ∷ events) r v =
    step-Rising (length events) r event (trace (step r event).0 events) v
      (trace-Rising events (step r event).0 (step-IdsFresh (length events) r event v))

-- A peer that goes offline and comes back gets a new client id, the next free one.
pub trace-reconnect :
    (room : ℕ) (r : Relay) (peer : Text)
    → IdsFresh (suc room) r
    → r.on_connect ≡ true
    → r.on_disconnect ≡ true
    → is_current r peer ≡ false
    → let n = r.next_client_id in
      trace r (ready peer ∷ status peer false ∷ ready peer ∷ [])
      ≡ connected n ∷ disconnected n ∷ connected (suc n) ∷ []
unfolding step is_current
trace-reconnect room r peer v c d e =
    let q = next-unwrapped room r.next_client_id v.room_left in
    let t = text_eq_refl peer in let p = v.positive in ground arith

-- `disconnect` of the current peer closes the client. A peer status that reports the lost peer while the
-- client is being closed, or before the peer is forgotten, announces the client's disconnection; one that
-- comes later announces nothing.
pub trace-disconnect :
    (r : Relay) (id : ℕ) (peer : Text)
    → r.running ≡ true
    → r.client ≡ true
    → r.on_disconnect ≡ true
    → r.current_peer_id ≡ some peer
    → r.assigned_id ≡ id
    → 0 < id
    → (trace r (disconnects id ∷ enters ∷ closes ∷ status peer false ∷ drops ∷ forgets ∷ ends ∷ [])
        ≡ relay_close ∷ disconnected id ∷ [])
      × (trace r
            (disconnects id ∷ enters ∷ closes ∷ drops ∷ status peer false ∷ forgets ∷ ends ∷ [])
          ≡ relay_close ∷ disconnected id ∷ [])
      × (trace r
            (disconnects id ∷ enters ∷ closes ∷ drops ∷ forgets ∷ status peer false ∷ ends ∷ [])
          ≡ relay_close ∷ [])
unfolding step is_current
trace-disconnect r id peer running client d e a positive =
    let t = text_eq_refl peer in (ground arith, ground arith, ground arith)
