-- ===== src/Subscription/Nodes.antt =====
-- The nodes that a client's subscription lists: crates/pp-hub/src/routes/subscription/generator.rs.
-- The writing of sizes, days and dates in a remark is an argument.
pub mod Remark
pub mod Build
pub mod Reads
pub mod Credential
pub mod Password
pub mod Shared
use Prim.Native.String.{◌++◌ as ◌<>◌}
use multi_proxy_panel.Prelude.{
  ℕ, ℤ, pos, String, str_eq, starts_with, Bool, true, false, not, ◌&&◌, ◌||◌, List, [], ◌∷◌, ◌++◌,
  map, Option, none, some, ◌==◌, any, find, retain, if◌then◌else◌, unwrap_or,
}
use multi_proxy_panel.Prelude.Text.{is_empty, split}
use multi_proxy_panel.Db.{Result, ok, err, Sql, pure, lift, statement, select, ◌>>=◌, ◌>>◌}
use multi_proxy_panel.Hub.{Uuid, Time, Status, active, disabled, limited, expired, on_hold}
use multi_proxy_panel.Protocol.{ProtocolType, protocol_name, parse_protocol}
use multi_proxy_panel.Json.{
  Value, Items, no_items, item, text, number, array, object, Fields, get, as_str, as_array, get_str,
  str_or, json_array, json_object, put, to_list, no_fields, field, is_object,
}
use multi_proxy_panel.Settings.{and_then, or_else, merge_tls_settings}
use multi_proxy_panel.ConfigGen.{
  Uuids, NodeBinding, ProtocolConfig, Certificate, BindingGroup, ClientGroup, member_of, with_limit,
  vless_entry,
}
use multi_proxy_panel.ConfigGen.RelayRules.{as_u16}
use multi_proxy_panel.Subscription.{ProxyNode}

pub record Client : Type 0 where
  pub id : Uuid
  pub name : String
  pub email : Option String
  pub max_devices : Option ℤ
  pub status : Status
  pub traffic_used_bytes : ℤ
  pub traffic_limit_bytes : ℤ
  pub expiry_date : Option Time

pub record Node : Type 0 where
  pub id : Uuid
  pub name : String
  pub address : String
  pub domain : Option String
  pub parent_id : Option Uuid

pub record InboundHost : Type 0 where
  pub protocol_config_id : Uuid
  pub node_id : Uuid
  pub is_active : Bool
  pub remark : String
  pub address : String
  pub port : ℤ
  pub sni : Option String
  pub host : Option String
  pub path : Option String

pub record NodeGroup : Type 0 where
  pub id : Uuid
  pub name : String

pub record Subscription : Type 0 where
  pub id : Uuid
  pub client_id : Uuid
  pub token : String
  pub is_active : Bool
  pub last_accessed_at : Option Time

pub record Template : Type 0 where
  pub name : String
  pub format : String
  pub base_config : Option String
  pub filter_rules : Option Value
  pub is_enabled : Bool

pub record Tables : Type 0 where
  pub clients : List Client
  pub subscriptions : List Subscription
  pub templates : List Template
  pub bindings : List NodeBinding
  pub configs : List ProtocolConfig
  pub nodes : List Node
  pub hosts : List InboundHost
  pub certificates : List Certificate
  pub groups : List NodeGroup
  pub binding_groups : List BindingGroup
  pub client_groups : List ClientGroup

-- `.one(db)`
abbrev pub one : {A : Type 0} → (Tables → List A) → (A → Bool) → Sql Tables (Option A)
one table p = statement λ t. (ok (find p (table t)), t)

-- Whether the client gets any nodes.
abbrev pub serves : Status → Bool
serves limited = false
serves expired = false
serves _ = true

abbrev texts_of : Items → List String
texts_of no_items = []
texts_of (item (text s) vs) = s ∷ texts_of vs
texts_of (item _ vs) = texts_of vs

abbrev texts_in : Option Items → List String
texts_in none = []
texts_in (some vs) = texts_of vs

-- The texts of an array in the filter rules.
unfoldable pub rule_texts : String → Option Value → List String
unfolding get
rule_texts k rules = texts_in (as_array (and_then rules (get k)))

abbrev pub text_in : List String → String → Bool
text_in ss s = any (λ t. str_eq t s) ss

-- An empty list admits everything.
abbrev pub unrestricted : {A : Type 0} → List A → Bool
unrestricted [] = true
unrestricted (x ∷ xs) = false

unfoldable pub allowed_group_ids : List String → Sql Tables (List Uuid)
allowed_group_ids [] = pure []
allowed_group_ids (n ∷ ns) = do
  gs ← select (λ t. t.groups) (λ g. text_in (n ∷ ns) g.name)
  pure (map (λ g. g.id) gs)

-- Some group of the binding is one of these.
abbrev pub shares : List Uuid → List Uuid → Bool
shares gs hs = any (λ g. member_of hs g) gs

-- The group test of the template.
abbrev pub group_allowed : List Uuid → List Uuid → Bool
group_allowed allowed gs = unrestricted allowed || shares gs allowed

abbrev pub protocol_allowed : List String → ProtocolType → Bool
protocol_allowed allowed p = unrestricted allowed || text_in allowed (protocol_name p)

abbrev pub push_client : Value → Value → Value
push_client entry settings = elim (as_array (get "clients" settings)) [
  | none ↦ settings
  | some cs ↦ put "clients" (json_array (to_list cs ++ entry ∷ [])) settings
]

abbrev pub with_clients : Value → Value
with_clients settings = elim (get "clients" settings) [
  | none ↦ put "clients" (json_array []) settings
  | some v ↦ settings
]

abbrev pub address_of : Node → String
address_of node = unwrap_or node.domain node.address

abbrev put_sni : String → Option String → Value → Value
put_sni k none settings = settings
put_sni k (some s) settings = put k (text s) settings

-- The host's names in the settings. The code computes the host's TLS settings too, and drops them.
unfoldable pub with_host : Option InboundHost → Value → Value
unfolding put
with_host none settings = settings
with_host (some h) settings =
    put_sni "path" h.path (put_sni "host" h.host (put_sni "sni" h.sni settings))

abbrev named_by_cert : Uuid → Option Certificate → Value → Value
named_by_cert node_id none tls = tls
named_by_cert node_id (some cert) tls =
    if cert.node_id == node_id then put "serverName" (text cert.domain) tls else tls

-- `obj.remove(key)`
unfoldable pub remove_field : String → Fields → Fields
remove_field k no_fields = no_fields
remove_field k (field j v fs) =
    let rest = remove_field k fs in if str_eq j k then rest else field j v rest

abbrev removed : String → Value → Value
removed k (object fs) = object (remove_field k fs)
removed k v = v

abbrev without_cert_id : Uuid → Option Certificate → Value → Value
without_cert_id node_id none tls = tls
without_cert_id node_id (some cert) tls =
    if cert.node_id == node_id then removed "cert_id" tls else tls

abbrev has_text : Option String → Bool
has_text none = false
has_text (some s) = not (is_empty s)

-- An ACME domain names the server where nothing else does.
unfoldable pub with_domain : Value → Value
unfolding get_str put is_empty
with_domain tls = if has_text (get_str "serverName" tls) then tls else elim (get_str "domain" tls) [
  | none ↦ tls
  | some d ↦ if is_empty d then tls else put "serverName" (text d) tls
]

abbrev pub resolved_with : Uuid → Value → Option Certificate → Value
resolved_with node_id tls cert =
    with_domain (without_cert_id node_id cert (named_by_cert node_id cert tls))

module _ (u : Uuids) where
  unfoldable pub inject_client_credentials : Client → String → Value → Value
  unfolding put get
  inject_client_credentials client protocol_type settings =
      let id = u.to_text client.id in
      let email = unwrap_or client.email client.name in
      let base = with_clients settings in
      let flow = if str_eq protocol_type "vless_reality" then "xtls-rprx-vision" else "" in
      let by_password = json_object (("name", text email) ∷ ("password", text id) ∷ []) in
      if starts_with protocol_type "vless"
      then push_client (with_limit client.max_devices (vless_entry id email flow))
          (put "id" (text id) base)
      else if str_eq protocol_type "hysteria2"
      then push_client by_password base
      else if str_eq protocol_type "anytls"
      then push_client by_password base
      else base

  unfoldable pub find_certificate : Option Uuid → Sql Tables (Option Certificate)
  find_certificate none = pure none
  find_certificate (some id) = one (λ t. t.certificates) (λ c. c.id == id)

  unfoldable pub resolve_subscription_tls : Uuid → Option Value → Sql Tables (Option Value)
  unfolding find_certificate with_domain put remove_field get_str
  resolve_subscription_tls node_id none = pure none
  resolve_subscription_tls node_id (some tls) = do
    cert ← find_certificate (and_then (get_str "cert_id" tls) u.parse_str)
    pure (some (resolved_with node_id tls cert))
