-- ===== src/Relay.antt =====
-- RelayTransport of gateway/libs/transport (relay_transport.cpp): the one peer of a relay connection,
-- seen through the client ids of the Transport interface.
pub mod Ids
mod Tests
use karshipta.Common.{
  ◌-◌, ℕ, ◌+◌, ◌%◌, ◌^◌, Bool, true, false, not, ◌&&◌, ◌||◌, List, [], ◌∷◌, ◌++◌, Option, none,
  some, ◌==◌, if◌then◌else◌, Text, text, text_eq, is_empty,
}

pub record RelayCredentials : Type 0 where
  pub device_id : Text
  pub private_key_path : Text
  pub device_token : Text

-- The members that change after construction. `client` says whether `client_` holds a client, and the
-- callbacks whether they are set. The last five count the calls of `stop` that are under way, by how far
-- they are: called, past the test of `running_`, past the call of Close, past the reset of `client_`, and
-- past the reset of the peer.
pub record Relay : Type 0 where
  pub credentials : RelayCredentials
  pub running : Bool
  pub client : Bool
  pub current_peer_id : Option Text
  pub assigned_id : ℕ
  pub next_client_id : ℕ
  pub on_receive : Bool
  pub on_connect : Bool
  pub on_disconnect : Bool
  pub stop_calls : ℕ
  pub closing : ℕ
  pub dropping : ℕ
  pub forgetting : ℕ
  pub ending : ℕ

-- Calls of the callbacks, and calls of the relayly client.
pub data Action : Type 0 where
  connected disconnected : ℕ → Action
  receive : ℕ → List ℕ → Action
  relay_send : Text → List ℕ → Action
  relay_connect : Text → Text → Action
  relay_close : Action

abbrev pub default_private_key_path : Text
default_private_key_path = text "~/.relayly/device.key"

abbrev pub default_peer_store_path : Text
default_peer_store_path = text "~/.relayly/peers.json"

-- `HOME`, where it is set and not empty.
pub home_directory : Option Text → Option Text
home_directory none = none
home_directory (some []) = none
home_directory (some (c ∷ cs)) = some (c ∷ cs)

-- The path behind a leading `~`, if it begins with `~/`.
pub after_tilde : Text → Option Text
after_tilde [] = none
after_tilde (a ∷ []) = none
after_tilde (a ∷ b ∷ rest) = if (a == b'~') && (b == b'/') then some (b ∷ rest) else none

unfoldable pub expand_leading_tilde : Option Text → Text → Text
unfolding home_directory after_tilde
expand_leading_tilde home path = elim (after_tilde path) [
  | none ↦ path
  | some rest ↦ elim (home_directory home) [ none ↦ path | some directory ↦ directory ++ rest ]
]

pub key_path : RelayCredentials → Text
key_path credentials =
    if is_empty credentials.private_key_path
    then default_private_key_path
    else credentials.private_key_path

-- `start`. `home` is the environment's HOME, and `connects` whether `Client::Connect` returns a client.
pub start : Option Text → Bool → Relay → Relay × List Action
unfolding expand_leading_tilde key_path
start home connects r =
    if r.running
    then (r, [])
    else if is_empty r.credentials.device_id || is_empty r.credentials.device_token
    then (r, [])
    else let attempt =
        relay_connect (expand_leading_tilde home (key_path r.credentials))
          (expand_leading_tilde home default_peer_store_path) in
      if connects
      then (record r { client = true; running = true }, attempt ∷ [])
      else (r, attempt ∷ [])

-- A call of `stop`. It holds no lock but for the reset of the peer, so callbacks of the client and calls
-- of other threads come between its parts, those below.
unfoldable pub stop : Relay → Relay
stop r = record r { stop_calls = r.stop_calls + 1 }

-- The test of `running_`.
unfoldable pub enter_stop : Relay → Relay
enter_stop r =
    if r.stop_calls == 0
    then r
    else if r.running
    then record r { stop_calls = r.stop_calls - 1; closing = r.closing + 1 }
    else record r { stop_calls = r.stop_calls - 1 }

-- The call of Close, which lasts until `drop_client`.
unfoldable pub close_client : Relay → Relay × List Action
close_client r = if r.closing == 0 then (r, []) else (
  record r { closing = r.closing - 1; dropping = r.dropping + 1 },
  (if r.client then relay_close ∷ [] else []),
)

unfoldable pub drop_client : Relay → Relay
drop_client r =
    if r.dropping == 0
    then r
    else record r { client = false; dropping = r.dropping - 1; forgetting = r.forgetting + 1 }

-- Under `peer_mutex_`.
unfoldable pub forget_peer : Relay → Relay
forget_peer r =
    if r.forgetting == 0
    then r
    else record r { current_peer_id = none; forgetting = r.forgetting - 1; ending = r.ending + 1 }

unfoldable pub end_stop : Relay → Relay
end_stop r = if r.ending == 0 then r else record r { running = false; ending = r.ending - 1 }

-- Whether `client` is the id of the current peer; gives that peer.
pub peer_of : Relay → ℕ → Option Text
peer_of r client = elim r.current_peer_id [
  | none ↦ none
  | some peer ↦ if r.assigned_id == client then some peer else none
]

unfoldable pub send : Relay → ℕ → List ℕ → List Action
unfolding peer_of
send r client bytes = elim (peer_of r client) [
  | none ↦ []
  | some peer ↦ if r.client then relay_send peer bytes ∷ [] else []
]

-- The peer is compared under the lock, which `stop` is called without.
unfoldable pub disconnect : Relay → ℕ → Relay
unfolding peer_of stop
disconnect r client = elim (peer_of r client) [ none ↦ r | some peer ↦ stop r ]

-- The first half of `broadcast`, under the lock: the id to send to, or 0.
unfoldable pub broadcast_id : Relay → ℕ
broadcast_id r = elim r.current_peer_id [ none ↦ 0 | some peer ↦ r.assigned_id ]

-- The second half, which takes the lock again in `send`; other threads may have run in between.
unfoldable pub broadcast_send : Relay → ℕ → List ℕ → List Action
unfolding send
broadcast_send r id bytes = if id == 0 then [] else send r id bytes

unfoldable pub is_current : Relay → Text → Bool
is_current r peer = elim r.current_peer_id [ none ↦ false | some current ↦ text_eq current peer ]

unfoldable pub handle_peer_ready : Relay → Text → Relay × List Action
unfolding is_current
handle_peer_ready r peer = if is_current r peer then (r, []) else (
  record r {
    current_peer_id = some peer;
    assigned_id = r.next_client_id;
    next_client_id = (r.next_client_id + 1) % 2 ^ 64;
  },
  (if r.on_connect then connected r.next_client_id ∷ [] else []),
)

unfoldable pub handle_peer_status : Relay → Text → Bool → Relay × List Action
unfolding is_current
handle_peer_status r peer online = if online || not (is_current r peer) then (r, []) else (
  record r { current_peer_id = none },
  (if not (r.assigned_id == 0) && r.on_disconnect then disconnected r.assigned_id ∷ [] else []),
)

unfoldable pub handle_message : Relay → Text → List ℕ → List Action
unfolding is_current
handle_message r from payload =
    let id = if is_current r from then r.assigned_id else 0 in
    if not (id == 0) && r.on_receive then receive id payload ∷ [] else []

-- What the owner of the transport and the relayly client call, and the parts of a `stop`.
pub data Event : Type 0 where
  starts : Option Text → Bool → Event
  stops enters closes drops forgets ends : Event
  sends : ℕ → List ℕ → Event
  disconnects : ℕ → Event
  broadcasts : ℕ → List ℕ → Event
  ready : Text → Event
  status : Text → Bool → Event
  message : Text → List ℕ → Event

unfoldable pub step : Relay → Event → Relay × List Action
unfolding start stop enter_stop close_client drop_client forget_peer end_stop send disconnect
    broadcast_send handle_peer_ready handle_peer_status handle_message
step r (starts home connects) = start home connects r
step r stops = (stop r, [])
step r enters = (enter_stop r, [])
step r closes = close_client r
step r drops = (drop_client r, [])
step r forgets = (forget_peer r, [])
step r ends = (end_stop r, [])
step r (sends client bytes) = (r, send r client bytes)
step r (disconnects client) = (disconnect r client, [])
step r (broadcasts id bytes) = (r, broadcast_send r id bytes)
step r (ready peer) = handle_peer_ready r peer
step r (status peer online) = handle_peer_status r peer online
step r (message from payload) = (r, handle_message r from payload)

unfoldable pub run : Relay → List Event → Relay
run r [] = r
run r (event ∷ events) = run (step r event).0 events
