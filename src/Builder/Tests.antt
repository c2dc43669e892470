-- ===== src/Builder/Tests.antt =====
-- Runs of the builders.
use multi_proxy_panel.Prelude.{◌≡◌, refl, String, not, List, [], ◌∷◌, Option, none, some, any}
use multi_proxy_panel.Prelude.Text.{
  is_empty, split_by, parse_u64, digits_from, to_string, show_onto,
}
use multi_proxy_panel.Protocol.{ProtocolType, hysteria2, anytls}
use multi_proxy_panel.Json.{
  Value, text, number, json_object, json_array, get, get_field, get_str, put_field,
}
use multi_proxy_panel.Builder.{InboundConfig, is_built}
use multi_proxy_panel.Builder.CoreVersion.{version_gte, effective_singbox_version, requested}
use multi_proxy_panel.Builder.SingBox.Full as Full
use multi_proxy_panel.Builder.SingBox.Inbounds.{rejected, build_full_config-Rejected}
use multi_proxy_panel.Builder.MihomoUsers.{
  password_users, setting_str, insert_users, insert_user, user_key,
}
use multi_proxy_panel.Builder.Mihomo as Mihomo
use multi_proxy_panel.Builder.Mihomo.Same.{build_full_config-Same}

abbrev no_variables : String → Option String
no_variables name = none

abbrev inbound : ProtocolType → Value → Option Value → Option String → InboundConfig
inbound p settings tls version = record {
  tag = "in";
  protocol = p;
  listen = "::";
  port = 443;
  settings = settings;
  tls = tls;
  core_version = version;
}

abbrev obfuscated : Value
obfuscated =
    json_object
      (("obfs_type", text "salamander") ∷ ("obfs_password", text "p") ∷ ("port", number 8443) ∷ [])

abbrev managed : Value
managed = json_object (("managed_domain", text "a.example") ∷ [])

abbrev two : List InboundConfig
two =
    inbound hysteria2 obfuscated none (some "1.13.9")
    ∷ inbound anytls obfuscated (some managed) (some "v1.14.2-beta.1")
    ∷ []

effective_run : effective_singbox_version two ≡ "v1.14.2-beta.1"
unfolding effective_singbox_version requested version_gte split_by parse_u64 digits_from is_empty
effective_run = refl

build_full_config-Rejected_example :
    is_built (Full.build_full_config no_variables two) ≡ not (any rejected two)
build_full_config-Rejected_example = build_full_config-Rejected no_variables two

build_full_config-Same_example :
    is_built (Full.build_full_config no_variables two)
    ≡ is_built (Mihomo.build_full_config no_variables two)
build_full_config-Same_example = build_full_config-Same no_variables two refl

abbrev client : String → String → Value
client name password = json_object (("name", text name) ∷ ("password", text password) ∷ [])

abbrev with_clients : List Value → Value
with_clients cs = json_object (("clients", json_array cs) ∷ [])

-- A name that looks like a generated key hides the user who gets the key.
collision_run :
    password_users (with_clients (client "user2" "p" ∷ client "" "q" ∷ []))
    ≡ json_object (("user2", text "q") ∷ [])
unfolding password_users insert_users insert_user user_key setting_str get_str get get_field
    is_empty put_field to_string show_onto
collision_run = refl
