-- ===== src/Relay/Rules.antt =====
-- The relay rules of the database and their system clients: the handlers of
-- crates/pp-hub/src/routes/relay_rule.rs that write. Ids as text and `mark_pending` are arguments.
use Prim.Native.String.{◌++◌ as ◌<>◌}
use multi_proxy_panel.Prelude.{
  ℤ, pos, String, str_eq, Bool, true, false, not, ◌||◌, List, [], ◌∷◌, ◌++◌, Option, none, some,
  ◌==◌, any, find, retain, if◌then◌else◌, unwrap_or,
}
use multi_proxy_panel.Prelude.Text.{trim, is_empty}
use multi_proxy_panel.Db.{
  validation, Result, ok, err, Sql, pure, lift, statement, select, attempt, utc_now, new_v4, done,
  ◌>>=◌, ◌>>◌,
}
use multi_proxy_panel.Hub.{Uuid, Time, NodeBinding, map_where}
use multi_proxy_panel.Json.{Value}
use multi_proxy_panel.Protocol.{CoreType, sing_box, mihomo}
use multi_proxy_panel.ConfigGen.{ProtocolConfig, BindingGroup, ClientGroup, present}
use multi_proxy_panel.Relay.{valid_match}

-- The columns that are the same for every system client are left out.
pub record SystemClient : Type 0 where
  pub id : Uuid
  pub user_id : Uuid
  pub name : String
  -- the id in the e-mail address
  pub email_id : Uuid
  pub created_at : Time

pub record RelayRule : Type 0 where
  pub id : Uuid
  pub node_id : Uuid
  pub exit_binding_id : Uuid
  pub relay_client_id : Uuid
  pub name : String
  pub match_type : String
  pub match_config : Value
  pub enabled : Bool
  pub sort_order : ℤ
  pub updated_at : Time

pub record Tables : Type 0 where
  pub nodes : List Uuid
  pub bindings : List NodeBinding
  pub configs : List ProtocolConfig
  pub binding_groups : List BindingGroup
  pub client_groups : List ClientGroup
  pub clients : List SystemClient
  pub rules : List RelayRule

abbrev one : {A : Type 0} → (Tables → List A) → (A → Bool) → Sql Tables (Option A)
one table p = statement λ t. (ok (find p (table t)), t)

abbrev write : (Tables → Tables) → Sql Tables (Unit {0})
write f = statement λ t. (ok tt, f t)

abbrev pub exit_of : Uuid → Sql Tables (Option NodeBinding)
exit_of id = one (λ t. t.bindings) (λ b. b.id == id)

unfoldable pub copy_groups : Uuid → List BindingGroup → Sql Tables (Unit {0})
copy_groups client_id [] = done
copy_groups client_id (g ∷ gs) = do
  new_v4
  write λ t. record t {
    client_groups = t.client_groups ++ record { client_id = client_id; group_id = g.group_id } ∷ [];
  }
  copy_groups client_id gs

unfoldable pub provision_relay_client : String → Uuid → Sql Tables Uuid
unfolding copy_groups
provision_relay_client rule_name exit_binding_id = do
  client_id ← new_v4
  now ← utc_now
  user_id ← new_v4
  email_id ← new_v4
  write λ t. record t {
    clients =
        t.clients
        ++ record {
          id = client_id;
          user_id = user_id;
          name = "relay-" <> rule_name;
          email_id = email_id;
          created_at = now;
        }
          ∷ [];
  }
  gs ← select (λ t. t.binding_groups) (λ g. g.node_binding_id == exit_binding_id)
  copy_groups client_id gs
  pure client_id

unfoldable pub delete_relay_client : Uuid → Sql Tables (Unit {0})
delete_relay_client id = do
  write λ t. record t { client_groups = retain (λ m. not (m.client_id == id)) t.client_groups }
  write λ t. record t { clients = retain (λ c. not (c.id == id)) t.clients }

abbrev relay_core : String → Bool
relay_core s = str_eq s "sing-box" || str_eq s "mihomo"

abbrev relay_protocol : String → Bool
relay_protocol s = str_eq s "vless_reality" || str_eq s "hysteria2" || str_eq s "anytls"

abbrev required_to_be : Bool → Result (Unit {0})
required_to_be b = if b then ok tt else err validation

abbrev config_known : Option ProtocolConfig → Result ProtocolConfig
config_known none = err validation
config_known (some c) = ok c

unfoldable pub validate_relay_payload : Uuid → Uuid → String → Value → Sql Tables (Unit {0})
unfolding valid_match
validate_relay_payload node_id exit_binding_id match_type match_config = do
  entry ← one (λ t. t.nodes) (λ n. n == node_id)
  lift (present entry)
  row ← exit_of exit_binding_id
  exit ← lift (present row)
  lift (required_to_be (not (exit.node_id == node_id)))
  config ← one (λ t. t.configs) (λ c. c.id == exit.protocol_config_id)
  pc ← lift (config_known config)
  lift (required_to_be (relay_core pc.core_type))
  lift (required_to_be (relay_protocol pc.protocol_type))
  lift (valid_match match_type match_config)

abbrev exit_node : Option NodeBinding → List Uuid
exit_node none = []
exit_node (some b) = b.node_id ∷ []

abbrev other_than : List Uuid → List Uuid → List Uuid
other_than known ids = retain (λ i. not (any (λ k. k == i) known)) ids

pub record Payload : Type 0 where
  pub name : Option String
  pub match_type : Option String
  pub match_config : Option Value
  pub enabled : Option Bool
  pub sort_order : Option ℤ
  pub exit_binding_id : Option Uuid

pub record NewRule : Type 0 where
  pub node_id : Uuid
  pub exit_binding_id : Uuid
  pub name : String
  pub match_type : String
  pub match_config : Value
  pub enabled : Option Bool
  pub sort_order : Option ℤ

-- Another exit than the rule's.
abbrev moved : Option Uuid → Uuid → Bool
moved none id = false
moved (some e) id = not (e == id)

abbrev name_given : Option String → Result (Unit {0})
name_given none = ok tt
name_given (some s) = if is_empty (trim s) then err validation else ok tt

abbrev trimmed_or : Option String → String → String
trimmed_or none s = s
trimmed_or (some t) s = trim t

unfoldable pub relay_client_of : Payload → RelayRule → Uuid → Sql Tables Uuid
unfolding provision_relay_client delete_relay_client
relay_client_of p rule exit_id =
    if moved p.exit_binding_id rule.exit_binding_id
    then delete_relay_client rule.relay_client_id
      >> provision_relay_client (unwrap_or p.name rule.name) exit_id
    else pure rule.relay_client_id

module _ (mark_pending : List Uuid → CoreType → Sql Tables (Unit {0})) where
  -- A failure is logged, and the next core is marked.
  unfoldable pub mark_both : List Uuid → Sql Tables (Unit {0})
  mark_both ids = do attempt (mark_pending ids sing_box); attempt (mark_pending ids mihomo); done

  unfoldable pub create_relay_rule : NewRule → Sql Tables Uuid
  unfolding validate_relay_payload provision_relay_client mark_both trim is_empty
  create_relay_rule p = do
    lift (name_given (some p.name))
    validate_relay_payload p.node_id p.exit_binding_id p.match_type p.match_config
    client_id ← provision_relay_client p.name p.exit_binding_id
    now ← utc_now
    id ← new_v4
    write λ t. record t {
      rules =
          t.rules
          ++ record {
            id = id;
            node_id = p.node_id;
            exit_binding_id = p.exit_binding_id;
            relay_client_id = client_id;
            name = trim p.name;
            match_type = p.match_type;
            match_config = p.match_config;
            enabled = unwrap_or p.enabled true;
            sort_order = unwrap_or p.sort_order (pos 0);
            updated_at = now;
          }
            ∷ [];
    }
    exit ← exit_of p.exit_binding_id
    mark_both (other_than (0 ∷ []) (p.node_id ∷ exit_node exit))
    pure id

  unfoldable pub update_relay_rule : Uuid → Payload → Sql Tables (Unit {0})
  unfolding validate_relay_payload relay_client_of mark_both trim is_empty
  update_relay_rule id p = do
    row ← one (λ t. t.rules) (λ r. r.id == id)
    rule ← lift (present row)
    validate_relay_payload rule.node_id (unwrap_or p.exit_binding_id rule.exit_binding_id)
        (unwrap_or p.match_type rule.match_type) (unwrap_or p.match_config rule.match_config)
    client_id ← relay_client_of p rule (unwrap_or p.exit_binding_id rule.exit_binding_id)
    lift (name_given p.name)
    now ← utc_now
    write λ t. record t {
      rules =
          map_where (λ r. r.id == id)
            (λ r. record r {
              exit_binding_id = unwrap_or p.exit_binding_id r.exit_binding_id;
              relay_client_id = client_id;
              name = trimmed_or p.name r.name;
              match_type = unwrap_or p.match_type r.match_type;
              match_config = unwrap_or p.match_config r.match_config;
              enabled = unwrap_or p.enabled r.enabled;
              sort_order = unwrap_or p.sort_order r.sort_order;
              updated_at = now;
            })
            t.rules;
    }
    old ← exit_of rule.exit_binding_id
    exit ← exit_of (unwrap_or p.exit_binding_id rule.exit_binding_id)
    (let with_old = rule.node_id ∷ other_than (rule.node_id ∷ []) (exit_node old) in
        mark_both (with_old ++ other_than with_old (exit_node exit)))

  unfoldable pub delete_relay_rule : Uuid → Sql Tables (Unit {0})
  unfolding delete_relay_client mark_both
  delete_relay_rule id = do
    row ← one (λ t. t.rules) (λ r. r.id == id)
    rule ← lift (present row)
    exit ← exit_of rule.exit_binding_id
    write λ t. record t { rules = retain (λ r. not (r.id == id)) t.rules }
    delete_relay_client rule.relay_client_id
    mark_both (rule.node_id ∷ other_than (rule.node_id ∷ []) (exit_node exit))
