-- ===== src/Websocket/Bind.antt =====
-- websocket_transport.cpp, `from_config`. What the YAML library makes of the file is a parameter.
use karshipta.Common.{
  ℕ, ◌≡◌, refl, ap, ◌⊎◌, inl, inr, Bool, true, false, ◌&&◌, ◌||◌, Option, none, some, arith,
  if◌then◌else◌, Text, text, text_eq,
}

abbrev pub default_host : Text
default_host = text "127.0.0.1"

abbrev pub default_port : ℕ
default_port = 8765

-- The keys under `websocket`, where they are present.
pub record Section : Type 0 where
  pub host : Option Text
  pub port : Option ℕ
  pub allow_lan_bind : Option Bool
  pub container_bind : Option Bool

-- `malformed` is a file at which the YAML library throws.
pub data ConfigFile : Type 0 where
  missing malformed without_section : ConfigFile
  with_section : Section → ConfigFile

pub record Settings : Type 0 where
  pub host : Text
  pub port : ℕ
  pub allow_lan_bind : Bool
  pub container_bind : Bool

unfoldable pub is_loopback_host : Text → Bool
is_loopback_host host =
    text_eq host (text "127.0.0.1") || text_eq host (text "localhost") || text_eq host (text "::1")

abbrev pub safe_default : Settings
safe_default = record {
  host = default_host;
  port = default_port;
  allow_lan_bind = false;
  container_bind = false;
}

-- The value of a key, or what it was before.
or_else : {A : Type 0} → Option A → A → A
or_else none a = a
or_else (some b) a = b

unfoldable pub read_settings : ConfigFile → Settings
unfolding or_else
read_settings missing = safe_default
read_settings malformed = safe_default
read_settings without_section = safe_default
read_settings (with_section keys) = record {
  host = or_else keys.host default_host;
  port = or_else keys.port default_port;
  allow_lan_bind = or_else keys.allow_lan_bind false;
  container_bind = or_else keys.container_bind false;
}

-- The host to bind to; `in_container` is `is_in_container()`.
unfoldable pub bind_host : Bool → Settings → Text
unfolding is_loopback_host
bind_host in_container settings =
    if is_loopback_host settings.host
    then settings.host
    else if settings.allow_lan_bind
    then settings.host
    else if settings.container_bind && in_container
    then settings.host
    else if settings.container_bind
    then default_host
    else default_host

unfoldable pub from_config : Bool → ConfigFile → Text × ℕ
unfolding read_settings bind_host
from_config in_container file =
    let settings = read_settings file in (bind_host in_container settings, settings.port)

-- The configuration asks for it in so many words.
abbrev pub Allowed : Bool → ConfigFile → Type 0
Allowed in_container file =
    (keys : Section) × (file ≡ with_section keys)
    × ((keys.allow_lan_bind ≡ some true)
        ⊎ ((keys.container_bind ≡ some true) × (in_container ≡ true)))

default_host-loopback : is_loopback_host default_host ≡ true
unfolding is_loopback_host text_eq
default_host-loopback = refl

bind_host-guarded :
    (in_container : Bool) (settings : Settings)
    → (is_loopback_host (bind_host in_container settings) ≡ true)
      ⊎ ((settings.allow_lan_bind ≡ true)
          ⊎ ((settings.container_bind ≡ true) × (in_container ≡ true)))
unfolding bind_host
bind_host-guarded in_container settings = let safe = default_host-loopback in ground arith

or_else-true : (o : Option Bool) → or_else o false ≡ true → o ≡ some true
unfolding or_else
or_else-true none e = cc
or_else-true (some b) e = ap some e

-- The transport binds to a loopback host, unless the configuration file is well-formed and says
-- `allow_lan_bind: true`, or says `container_bind: true` and the gateway runs in a container.
pub from_config-guarded :
    (in_container : Bool) (file : ConfigFile)
    → (is_loopback_host (from_config in_container file).0 ≡ true) ⊎ Allowed in_container file
unfolding from_config is_loopback_host or_else text_eq
from_config-guarded in_container missing = inl refl
from_config-guarded in_container malformed = inl refl
from_config-guarded in_container without_section = inl refl
from_config-guarded in_container (with_section keys) =
    let settings = read_settings (with_section keys) in
    elim (bind_host-guarded in_container settings) [
      | inl loopback ↦ inl loopback
      | inr (inl lan) ↦ inr (keys, refl, inl (or_else-true keys.allow_lan_bind lan))
      | inr (inr (container, inside)) ↦
          inr (keys, refl, inr (or_else-true keys.container_bind container, inside))
    ]
