-- ===== src/Relay/Tests.antt =====
-- Runs of the check and of the reading of a relay rule's match.
use multi_proxy_panel.Prelude.{◌≡◌, refl, true, false, none, some, is_some, pos, [], ◌∷◌, map}
use multi_proxy_panel.Db.{ok, err, validation, Conn, done, ◌>>=◌, Sql}
use multi_proxy_panel.ConfigGen.{ProtocolConfig}
use multi_proxy_panel.Protocol.{mihomo}
use multi_proxy_panel.Json.{
  Value, text, array, object, item, no_items, field, no_fields, get, get_field, count_items,
}
use multi_proxy_panel.Relay.{
  library_lookup, valid_inline, valid_rule_set, valid_match, texts, str_list, match_spec,
}
use multi_proxy_panel.Relay.Rules.{Tables, Payload, update_relay_rule}
use multi_proxy_panel.Relay.Accepted.{valid_match-applies}

abbrev netflix : Value
netflix = object (field "library" (text "netflix") no_fields)

abbrev empty_domain : Value
empty_domain = object (field "domains" (array (item (text "") no_items)) no_fields)

-- An inline rule whose only domain is the empty text is accepted, but matches nothing.
inline_run :
    (valid_match "inline" empty_domain ≡ ok tt) × (match_spec "inline" empty_domain mihomo ≡ none)
unfolding valid_match valid_inline get get_field count_items match_spec str_list texts
inline_run = (refl, refl)

netflix_accepted : valid_match "rule_set" netflix ≡ ok tt
unfolding valid_match valid_rule_set get get_field library_lookup
netflix_accepted = refl

valid_match-applies_example : is_some (match_spec "rule_set" netflix mihomo) ≡ true
valid_match-applies_example = valid_match-applies netflix mihomo netflix_accepted

abbrev exit_config : ProtocolConfig
exit_config = record {
  id = 6;
  name = "hy";
  protocol_type = "hysteria2";
  core_type = "sing-box";
  listen_port = pos 443;
  listen_address = "::";
  settings = object no_fields;
  tls_settings = none;
}

-- One rule from node 1 to binding 5, and another binding 8 of node 2.
abbrev rules : Tables
rules = record {
  nodes = 1 ∷ 2 ∷ [];
  bindings =
      record {
        id = 8;
        node_id = 2;
        protocol_config_id = 6;
        is_active = true;
        override_address = none;
        override_port = none;
      }
      ∷ [];
  configs = exit_config ∷ [];
  binding_groups = [];
  client_groups = record { client_id = 4; group_id = 3 } ∷ [];
  clients = record { id = 4; user_id = 0; name = "relay-a"; email_id = 0; created_at = 0 } ∷ [];
  rules =
      record {
        id = 9;
        node_id = 1;
        exit_binding_id = 5;
        relay_client_id = 4;
        name = "a";
        match_type = "rule_set";
        match_config = netflix;
        enabled = true;
        sort_order = pos 0;
        updated_at = 0;
      }
      ∷ [];
}

abbrev unnamed : Payload
unnamed = record {
  name = some " ";
  match_type = none;
  match_config = none;
  enabled = none;
  sort_order = none;
  exit_binding_id = some 8;
}

abbrev rules_conn : Conn Tables
rules_conn = record {
  tables = rules;
  asked = 0;
  env = record { fails = λ n. false; now = λ n. 0; uuid = λ n. 20 };
}

abbrev update : Sql Tables (Unit {0})
update = update_relay_rule (λ ids core. done) 9 unnamed

-- An update without a name is refused after the rule's client has been replaced: the rule keeps the
-- client that is gone.
refused_update :
    ((update rules_conn).0 ≡ err validation)
    × (map (λ c. c.id) (update rules_conn).1.tables.clients ≡ 20 ∷ [])
    × (map (λ r. r.relay_client_id) (update rules_conn).1.tables.rules ≡ 4 ∷ [])
unfolding update_relay_rule ◌>>=◌ valid_match valid_rule_set get get_field library_lookup
refused_update = (refl, refl, refl)
