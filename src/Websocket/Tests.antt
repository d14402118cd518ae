-- ===== src/Websocket/Tests.antt =====
-- The address and the roles on small inputs, and the theorems at inputs that meet their hypotheses.
use karshipta.Common.{◌≡◌, refl, ◌⊎◌, true, false, none, some, if◌then◌else◌, Text, text, text_eq}
use karshipta.Websocket.Bind.{
  ConfigFile, with_section, Allowed, is_loopback_host, from_config, from_config-guarded,
}
use karshipta.Websocket.Role.{
  operator, viewer, behind, parameters, has_viewer, parse_role_from_uri,
  parse_role_from_uri-parameters,
}

abbrev everywhere : ConfigFile
everywhere = with_section (record {
  host = some (text "0.0.0.0");
  port = none;
  allow_lan_bind = none;
  container_bind = some true;
})

forced : from_config false everywhere ≡ (text "127.0.0.1", 8765)
unfolding from_config is_loopback_host text_eq
forced = refl

in_docker : from_config true everywhere ≡ (text "0.0.0.0", 8765)
unfolding from_config is_loopback_host text_eq
in_docker = refl

from_config-guarded_example :
    (is_loopback_host (from_config true everywhere).0 ≡ true) ⊎ Allowed true everywhere
from_config-guarded_example = from_config-guarded true everywhere

abbrev viewer_uri : Text
viewer_uri = text "/ws?id=3&role=viewer"

reads_viewer : parse_role_from_uri viewer_uri ≡ viewer
unfolding parse_role_from_uri text_eq
reads_viewer = refl

parse_role_from_uri-parameters_example :
    parse_role_from_uri viewer_uri
    ≡ (if has_viewer (parameters (text "id=3&role=viewer")) then viewer else operator)
unfolding behind
parse_role_from_uri-parameters_example = parse_role_from_uri-parameters viewer_uri
