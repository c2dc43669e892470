-- ===== src/ConfigGen/RelayRules.antt =====
-- The relay rules of a node in its config: `apply_singbox_relay_rule`, `apply_mihomo_relay_rule`,
-- `resolve_relay_sni` and `apply_relay_rules` of crates/pp-hub/src/service/protocol/relay.rs.
pub mod Order
pub mod Credential
use Prim.Native.String.{slice, ◌++◌ as ◌<>◌}
use multi_proxy_panel.Prelude.{
  ℕ, ℤ, pos, negsuc, ◌%◌, ◌^◌, ◌-◌, suc, String, str_eq, starts_with, Bool, true, false, not, ◌&&◌,
  List, [], ◌∷◌, ◌++◌, map, Option, none, some, ◌==◌, if◌then◌else◌, unwrap_or,
}
use multi_proxy_panel.Prelude.Text.{is_empty}
use multi_proxy_panel.Db.{
  PanelError, Result, ok, err, Conn, Sql, pure, lift, attempt, statement, select, ◌>>=◌, ◌>>◌,
}
use multi_proxy_panel.Hub.{Uuid}
use multi_proxy_panel.Json.{
  Value, null, boolean, number, text, array, object, Items, no_items, item, get, as_str, as_array,
  get_str, json_array, json_object, put,
}
use multi_proxy_panel.Settings.{and_then, non_empty}
use multi_proxy_panel.Protocol.{CoreType, sing_box, mihomo, parse_protocol, ProtocolType}
use multi_proxy_panel.Relay.{MatchSpec, inline, from_set, match_spec}
use multi_proxy_panel.Builder.{Built, built, refused, texts_value}
use multi_proxy_panel.Builder.Hop.{RelayHop, build_singbox_outbound, build_mihomo_proxy}
use multi_proxy_panel.ConfigGen.{
  Tables, Uuids, NodeBinding, ProtocolConfig, Certificate, ExitNode, RelayRule, one,
}

unfoldable pub append_item : Value → Items → Items
append_item v no_items = item v no_items
append_item v (item w xs) = item w (append_item v xs)

unfoldable pub push_json : Value → Value → Value
unfolding append_item
push_json v (array xs) = array (append_item v xs)
push_json v arr = arr

-- A change of `config[key]`, in an object. The configs here have the keys that the builders write.
abbrev pub update_key : String → (Value → Value) → Value → Value
update_key key f config = put key (f (unwrap_or (get key config) null)) config

abbrev array_or_empty : Option Value → Value
array_or_empty (some (array xs)) = array xs
array_or_empty _ = json_array []

abbrev object_or_empty : Option Value → Value
object_or_empty (some (object fs)) = object fs
object_or_empty _ = json_object []

-- `if !config.get(key).is_some_and(|v| v.is_array()) { config[key] = json!([]) }`
abbrev with_array : String → Value → Value
with_array key config = put key (array_or_empty (get key config)) config

abbrev pub push_at : String → Value → Value → Value
push_at key v config = update_key key (push_json v) config

abbrev texts_unless_none : String → List String → Value → Value
texts_unless_none key [] r = r
texts_unless_none key (s ∷ ss) r = put key (texts_value (s ∷ ss)) r

abbrev add_rule_set : String → String → String → Value → Value
add_rule_set rs_tag url format route =
    push_at "rule_set"
      (json_object (
        ("type", text "remote")
        ∷ ("tag", text rs_tag)
        ∷ ("format", text format)
        ∷ ("url", text url)
        ∷ []))
      (with_array "rule_set" route)

abbrev apply_singbox_match : Option MatchSpec → String → String → Value → Value
apply_singbox_match none tag rs_tag config = config
apply_singbox_match (some (inline domains suffixes)) tag rs_tag config =
    update_key "route"
      (push_at "rules" (
        texts_unless_none "domain_suffix" suffixes
          (texts_unless_none "domain" domains (json_object (("outbound", text tag) ∷ [])))))
      config
apply_singbox_match (some (from_set url extra)) tag rs_tag config =
    update_key "route"
      (λ route.
        push_at "rules"
          (json_object (("rule_set", texts_value (rs_tag ∷ [])) ∷ ("outbound", text tag) ∷ []))
          (add_rule_set rs_tag url extra route))
      config

unfoldable pub apply_singbox_relay_rule : String → String → RelayRule → Value → Value
unfolding match_spec push_json put get
apply_singbox_relay_rule tag rs_tag rule config =
    apply_singbox_match (match_spec rule.match_type rule.match_config sing_box) tag rs_tag config

abbrev pub is_match : Value → Bool
is_match (text s) = starts_with s "MATCH"
is_match _ = false

-- Before the first rule that begins with MATCH, or at the end.
unfoldable pub insert_rule : Value → Items → Items
insert_rule v no_items = item v no_items
insert_rule v (item w xs) =
    let rest = insert_rule v xs in if is_match w then item v (item w xs) else item w rest

abbrev insert_into : String → Option Value → Value → Value
insert_into entry (some (array rules)) config =
    put "rules" (array (insert_rule (text entry) rules)) config
insert_into entry _ config = config

unfoldable pub insert_entry : String → Value → Value
unfolding insert_rule get put
insert_entry entry config = insert_into entry (get "rules" config) config

unfoldable pub insert_entries : List String → Value → Value
unfolding insert_entry
insert_entries [] config = config
insert_entries (e ∷ es) config = insert_entries es (insert_entry e config)

abbrev rule_entry : String → String → String → String
rule_entry kind subject tag = kind <> ("," <> (subject <> (", " <> tag)))

abbrev provider : String → String → String → Value
provider rs_tag url behavior = json_object (
    ("type", text "http")
    ∷ ("behavior", text behavior)
    ∷ ("format", text "yaml")
    ∷ ("url", text url)
    ∷ ("path", text ("./ruleset/" <> (rs_tag <> ".yaml")))
    ∷ [])

abbrev apply_mihomo_match : Option MatchSpec → String → String → Value → Value
apply_mihomo_match none tag rs_tag config = config
apply_mihomo_match (some (inline domains suffixes)) tag rs_tag config =
    insert_entries (map (λ s. rule_entry "DOMAIN-SUFFIX" s tag) suffixes)
      (insert_entries (map (λ d. rule_entry "DOMAIN" d tag) domains) config)
apply_mihomo_match (some (from_set url extra)) tag rs_tag config =
    insert_entry (rule_entry "RULE-SET" rs_tag tag) (
      put "rule-providers"
        (put rs_tag (provider rs_tag url extra) (object_or_empty (get "rule-providers" config)))
        config)

unfoldable pub apply_mihomo_relay_rule : String → String → RelayRule → Value → Value
unfolding match_spec insert_entries put get
apply_mihomo_relay_rule tag rs_tag rule config =
    apply_mihomo_match (match_spec rule.match_type rule.match_config mihomo) tag rs_tag config

-- `as u16`
abbrev pub as_u16 : ℤ → ℕ
as_u16 (pos n) = n % 2 ^ 16
as_u16 (negsuc n) = (2 ^ 16 - suc (n % 2 ^ 16)) % 2 ^ 16

-- `?` on a result of the builders.
abbrev pub from_built : {A : Type 0} → Built A → Result A
from_built (built a) = ok a
from_built (refused e m) = err e

module _ (u : Uuids) where
  abbrev domain_of : Value → Option String
  domain_of tls = non_empty (get_str "domain" tls)

  abbrev found_or : Value → Result (Option Certificate) → Option String
  found_or tls (ok (some cert)) = some cert.domain
  found_or tls (ok none) = domain_of tls
  found_or tls (err e) = domain_of tls

  unfoldable pub sni_from : Option Value → Sql Tables (Option String)
  unfolding get_str is_empty
  sni_from none = pure none
  sni_from (some tls) = elim (and_then (get_str "cert_id" tls) u.parse_str) [
    | none ↦ pure (domain_of tls)
    | some id ↦ (do
      row ← attempt (one (λ t. t.certificates) (λ c. c.id == id))
      pure (found_or tls row))
  ]

  -- It does not fail.
  unfoldable pub resolve_relay_sni : NodeBinding → Sql Tables (Option String)
  unfolding sni_from get
  resolve_relay_sni binding = sni_from (and_then binding.override_settings (get "tls_settings"))

  abbrev pub relay_tag : RelayRule → String
  relay_tag rule = "relay-" <> slice (u.to_text rule.id) 0 8

  abbrev pub rule_set_tag : RelayRule → String
  rule_set_tag rule = "rs-" <> slice (u.to_text rule.id) 0 8

  abbrev apply_outbound : CoreType → String → String → RelayRule → Value → Value → Value
  apply_outbound sing_box tag rs_tag rule out config =
      apply_singbox_relay_rule tag rs_tag rule (push_at "outbounds" out config)
  apply_outbound mihomo tag rs_tag rule out config =
      apply_mihomo_relay_rule tag rs_tag rule (push_at "proxies" out (with_array "proxies" config))

  abbrev outbound_for : CoreType → RelayHop → Built Value
  outbound_for sing_box hop = build_singbox_outbound hop
  outbound_for mihomo hop = build_mihomo_proxy hop

  -- The way to the exit, as the relay's client.
  unfoldable pub relay_hop :
      RelayRule → ProtocolConfig → ExitNode → ProtocolType → Option String → RelayHop
  relay_hop rule exit_cfg exit_node protocol tls_sni = record {
    tag = relay_tag rule;
    protocol = protocol;
    settings = exit_cfg.settings;
    server = unwrap_or exit_node.domain exit_node.address;
    port = as_u16 exit_cfg.listen_port;
    credential = u.to_text rule.relay_client_id;
    tls_sni = tls_sni;
  }

  -- The rest of the loop's body, from the protocol of the exit on; an unknown one is passed over.
  unfoldable pub apply_hop :
      CoreType
      → RelayRule
      → NodeBinding
      → ProtocolConfig
      → ExitNode
      → Value
      → Option ProtocolType
      → Sql Tables Value
  unfolding push_json relay_hop
  apply_hop core rule binding exit_cfg exit_node config none = pure config
  apply_hop core rule binding exit_cfg exit_node config (some protocol) = do
    tls_sni ← resolve_relay_sni binding
    out ← lift (from_built (outbound_for core (relay_hop rule exit_cfg exit_node protocol tls_sni)))
    pure (apply_outbound core (relay_tag rule) (rule_set_tag rule) rule out config)

  -- `let Some(row) = … else { continue }`
  abbrev or_continue : {A : Type 0} → Value → Option A → (A → Sql Tables Value) → Sql Tables Value
  or_continue config none f = pure config
  or_continue config (some a) f = f a

  -- One turn of the loop.
  unfoldable pub apply_rule : CoreType → RelayRule → Value → Sql Tables Value
  unfolding apply_hop parse_protocol
  apply_rule core rule config = do
    binding ← one (λ t. t.bindings) (λ b. b.id == rule.exit_binding_id)
    or_continue config binding λ b. (do
      exit_cfg ← one (λ t. t.configs) (λ c. c.id == b.protocol_config_id)
      or_continue config exit_cfg λ cfg. (do
        exit_node ← one (λ t. t.nodes) (λ n. n.id == b.node_id)
        or_continue config exit_node
            λ n. apply_hop core rule b cfg n config (parse_protocol cfg.protocol_type)))

  unfoldable pub apply_each : CoreType → List RelayRule → Value → Sql Tables Value
  unfolding apply_rule
  apply_each core [] config = pure config
  apply_each core (r ∷ rs) config = do next ← apply_rule core r config; apply_each core rs next

  unfoldable pub apply_relay_rules : Uuid → CoreType → Value → Sql Tables Value
  unfolding apply_each
  apply_relay_rules node_id core config = do
    rules ← select (λ t. t.relay_rules) (λ r. r.node_id == node_id && r.enabled)
    apply_each core rules config
