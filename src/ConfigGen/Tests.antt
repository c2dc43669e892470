-- ===== src/ConfigGen/Tests.antt =====
-- Runs of the generation of a node's config.
use multi_proxy_panel.Prelude.{
  ◌≡◌, refl, String, Option, str_eq, true, false, List, [], ◌∷◌, none, some, pos, ◌==◌,
  if◌then◌else◌,
}
use multi_proxy_panel.Db.{Result, ok, err, Sql, pure, Conn, ◌>>=◌}
use multi_proxy_panel.Hub.{active, disabled}
use multi_proxy_panel.Json.{
  Value, null, text, number, json_object, json_array, get, get_field, put, put_field,
}
use multi_proxy_panel.Settings.{merge_tls_settings}
use multi_proxy_panel.Protocol.{CoreType, sing_box, hysteria2, parse_protocol}
use multi_proxy_panel.Builder.{InboundConfig, is_built}
use multi_proxy_panel.Builder.Hop.{build_singbox_outbound}
use multi_proxy_panel.ConfigGen.{
  Tables, Uuids, Client, NodeBinding, ProtocolConfig, ExitNode, RelayRule, inject_binding_clients,
  inject_groups, inject_clients_of, client_to_protocol_entry, resolve_managed_cert_tls,
  resolve_cert, parse_core_type, parse_protocol_type,
}
use multi_proxy_panel.ConfigGen.Clients.{
  settings_with, has_members, authorized, inject_binding_clients-Authorized,
}
use multi_proxy_panel.ConfigGen.Certificates.{Given, IsOwn, resolve_managed_cert_tls-IsOwn}
use multi_proxy_panel.ConfigGen.RelayRules.{
  insert_entries, relay_hop, from_built, apply_relay_rules,
}
use multi_proxy_panel.Builder.SingBox.Full as Full
use multi_proxy_panel.ConfigGen.Node.Generated.{IsMadeOf, generate_node_config-IsMadeOf}
use multi_proxy_panel.ConfigGen.RelayRules.Order.{RulesAre, insert_entries-before}
use multi_proxy_panel.ConfigGen.RelayRules.Credential.{read_built, injected, relay_hop-credential}
use multi_proxy_panel.ConfigGen.Node.{
  inbounds_for, inbound_of_config, merge_overrides, with_endpoint, generate_node_config,
}

abbrev ids : Uuids
ids = record {
  to_text = λ n. if n == 1 then "1" else "2";
  parse_str = λ s. if str_eq s "1" then some 1 else none;
}

abbrev ann : Client
ann = record { id = 1; email = none; max_devices = some (pos 2); status = active }

abbrev binding : NodeBinding
binding = record {
  id = 5;
  node_id = 7;
  protocol_config_id = 6;
  override_settings = none;
  is_active = true;
}

abbrev hysteria : ProtocolConfig
hysteria = record {
  id = 6;
  name = "hy";
  protocol_type = "hysteria2";
  core_type = "sing-box";
  listen_port = pos 443;
  listen_address = "::";
  settings = json_object [];
  tls_settings = some (json_object (("cert_id", text "1") ∷ []));
}

abbrev tables : Tables
tables = record {
  clients = ann ∷ record ann { id = 2; status = disabled } ∷ [];
  bindings = binding ∷ [];
  configs = hysteria ∷ [];
  certificates = record { id = 1; node_id = 7; domain = "a.example" } ∷ [];
  nodes = [];
  relay_rules = [];
  binding_groups = record { node_binding_id = 5; group_id = 3 } ∷ [];
  client_groups =
      record { client_id = 2; group_id = 3 } ∷ record { client_id = 1; group_id = 3 } ∷ [];
}

abbrev calm : Conn Tables
calm = record {
  tables = tables;
  asked = 0;
  env = record { fails = λ n. false; now = λ n. 0; uuid = λ n. 0 };
}

inject_binding_clients-Authorized_example :
    (inject_binding_clients ids binding "hysteria2" (json_object []) calm).0
    ≡ ok (
        settings_with ids "hysteria2"
          (json_object [])
          tables.clients
          (has_members tables binding)
          (authorized tables binding))
inject_binding_clients-Authorized_example =
    inject_binding_clients-Authorized ids binding "hysteria2" (json_object []) calm (λ n. refl)

-- The disabled client is left out.
inject_run :
    (inject_binding_clients ids binding "hysteria2" (json_object []) calm).0
    ≡ ok (
        json_object (
          (
            "clients",
            json_array (json_object (("name", text "1") ∷ ("password", text "1") ∷ []) ∷ []),
          )
          ∷ []))
unfolding inject_binding_clients inject_groups inject_clients_of client_to_protocol_entry put
    put_field ◌>>=◌
inject_run = refl

resolve_managed_cert_tls-IsOwn_example :
    Given
      (IsOwn tables 7 hysteria.tls_settings)
      (resolve_managed_cert_tls ids 7 hysteria.tls_settings calm).0
resolve_managed_cert_tls-IsOwn_example =
    resolve_managed_cert_tls-IsOwn ids 7 hysteria.tls_settings calm

abbrev rules : Value
rules = json_object (("rules", json_array (text "MATCH,DIRECT" ∷ [])) ∷ [])

rules_there : RulesAre rules (text "MATCH,DIRECT" ∷ [])
unfolding get get_field
rules_there = refl

insert_entries-before_example :
    RulesAre
      (insert_entries ("DOMAIN,a.example, relay-1" ∷ "DOMAIN,b.example, relay-1" ∷ []) rules)
      (text "DOMAIN,a.example, relay-1"
        ∷ text "DOMAIN,b.example, relay-1"
        ∷ text "MATCH,DIRECT"
        ∷ [])
insert_entries-before_example =
    insert_entries-before ("DOMAIN,a.example, relay-1" ∷ "DOMAIN,b.example, relay-1" ∷ [])
      (text "MATCH,DIRECT") [] [] rules tt (refl, (refl, tt)) refl rules_there

abbrev rule : RelayRule
rule = record {
  id = 4;
  node_id = 9;
  exit_binding_id = 5;
  relay_client_id = 1;
  match_type = "inline";
  match_config = json_object [];
  enabled = true;
}

abbrev exit_node : ExitNode
exit_node = record { id = 7; address = "1.2.3.4"; domain = some "exit.example" }

hop_built :
    is_built
      (build_singbox_outbound (relay_hop ids rule hysteria exit_node hysteria2 (some "a.example")))
    ≡ true
unfolding build_singbox_outbound relay_hop get get_field
hop_built = refl

relay_hop-credential_example :
    read_built "password"
      (build_singbox_outbound (relay_hop ids rule hysteria exit_node hysteria2 (some "a.example")))
    ≡ get "password" (injected ids hysteria2 ann)
relay_hop-credential_example =
    relay_hop-credential ids rule hysteria exit_node hysteria2 (some "a.example") ann refl hop_built

abbrev collected : List InboundConfig
collected =
    record {
      tag = "hy-2";
      protocol = hysteria2;
      listen = "::";
      port = 443;
      settings = json_object (
          (
            "clients",
            json_array (json_object (("name", text "1") ∷ ("password", text "1") ∷ []) ∷ []),
          )
          ∷ ("port", number 443)
          ∷ ("listen", text "::")
          ∷ ("tag", text "hy-2")
          ∷ []);
      tls = some (json_object (("managed_domain", text "a.example") ∷ []));
      core_version = none;
    }
    ∷ []

collected_run : (inbounds_for ids 7 sing_box none (binding ∷ []) calm).0 ≡ ok collected
unfolding inbounds_for parse_core_type inbound_of_config parse_protocol_type parse_protocol
    inject_binding_clients inject_groups inject_clients_of client_to_protocol_entry merge_overrides
    with_endpoint resolve_managed_cert_tls resolve_cert merge_tls_settings get get_field put
    put_field ◌>>=◌
collected_run = refl

abbrev read_or : Value → Result Value → Value
read_or other (ok v) = v
read_or other (err e) = other

abbrev no_version : CoreType → Sql Tables (Option String)
no_version core = pure none

abbrev no_variables : String → Option String
no_variables name = none

generated :
    (generate_node_config ids no_version (λ v. true) no_variables 7 sing_box calm).0
    ≡ ok (read_or null (from_built (Full.build_full_config no_variables collected)), none)
unfolding generate_node_config Full.build_full_config apply_relay_rules ◌>>=◌
    client_to_protocol_entry
generated = refl

generate_node_config-IsMadeOf_example :
    IsMadeOf ids no_version
      (λ v. true)
      no_variables
      7
      sing_box
      tables
      (read_or null (from_built (Full.build_full_config no_variables collected)))
unfolding pure
generate_node_config-IsMadeOf_example =
    generate_node_config-IsMadeOf ids no_version (λ v. true) no_variables 7 sing_box calm
      (read_or null (from_built (Full.build_full_config no_variables collected)), none) (λ d. refl)
      generated
