-- ===== src/ConfigGen.antt =====
-- What a node's config is made of: the tables that are read, the clients of a binding and its managed
-- certificate, crates/pp-hub/src/service/protocol/config_gen.rs. The reading and the writing of ids
-- are arguments.
pub mod Clients
pub mod Certificates
pub mod RelayRules
pub mod Node
mod Tests
use multi_proxy_panel.Prelude.{
  ℕ, ℤ, String, str_eq, starts_with, Bool, true, false, ◌&&◌, List, [], ◌∷◌, map, Option, none,
  some, ◌==◌, any, find, retain, if◌then◌else◌, unwrap_or,
}
use multi_proxy_panel.Prelude.Int.{leb_ℤ}
use multi_proxy_panel.Prelude.{pos, negsuc}
use multi_proxy_panel.Db.{
  PanelError, validation, not_found, Result, ok, err, Sql, pure, raise, lift, statement, select,
  ◌>>=◌, ◌>>◌,
}
use multi_proxy_panel.Hub.{Uuid, Status, active, disabled, limited, expired, on_hold}
use multi_proxy_panel.Protocol.{CoreType, sing_box, mihomo, ProtocolType, parse_protocol}
use multi_proxy_panel.Json.{
  Value, number, other_number, text, get, as_str, json_array, json_object, put,
}

pub record Client : Type 0 where
  pub id : Uuid
  pub email : Option String
  pub max_devices : Option ℤ
  pub status : Status

pub record NodeBinding : Type 0 where
  pub id : Uuid
  pub node_id : Uuid
  pub protocol_config_id : Uuid
  pub override_settings : Option Value
  pub is_active : Bool

pub record ProtocolConfig : Type 0 where
  pub id : Uuid
  pub name : String
  pub protocol_type : String
  pub core_type : String
  pub listen_port : ℤ
  pub listen_address : String
  pub settings : Value
  pub tls_settings : Option Value

pub record Certificate : Type 0 where
  pub id : Uuid
  pub node_id : Uuid
  pub domain : String

pub record ExitNode : Type 0 where
  pub id : Uuid
  pub address : String
  pub domain : Option String

pub record RelayRule : Type 0 where
  pub id : Uuid
  pub node_id : Uuid
  pub exit_binding_id : Uuid
  pub relay_client_id : Uuid
  pub match_type : String
  pub match_config : Value
  pub enabled : Bool

pub record BindingGroup : Type 0 where
  pub node_binding_id : Uuid
  pub group_id : Uuid

pub record ClientGroup : Type 0 where
  pub client_id : Uuid
  pub group_id : Uuid

pub record Tables : Type 0 where
  pub clients : List Client
  pub bindings : List NodeBinding
  pub configs : List ProtocolConfig
  pub certificates : List Certificate
  pub nodes : List ExitNode
  pub relay_rules : List RelayRule
  pub binding_groups : List BindingGroup
  pub client_groups : List ClientGroup

-- What the code uses of the `uuid` crate.
pub record Uuids : Type 0 where
  pub to_text : Uuid → String
  pub parse_str : String → Option Uuid

-- `find_by_id(…).one(db)`
abbrev pub one : {A : Type 0} → (Tables → List A) → (A → Bool) → Sql Tables (Option A)
one table p = statement λ t. (ok (find p (table t)), t)

-- `.ok_or_else(|| NotFound(…))?`
abbrev pub present : {A : Type 0} → Option A → Result A
present none = err not_found
present (some a) = ok a

abbrev pub is_active_status : Status → Bool
is_active_status active = true
is_active_status _ = false

-- `json!(n)` of an `i32`
abbrev pub int_value : ℤ → Value
int_value (pos n) = number n
int_value (negsuc n) = other_number

unfoldable pub parse_core_type : String → CoreType
parse_core_type s =
    if str_eq s "sing-box"
    then sing_box
    else if str_eq s "singbox"
    then sing_box
    else if str_eq s "mihomo"
    then mihomo
    else sing_box

abbrev known : Option ProtocolType → Result ProtocolType
known none = err validation
known (some p) = ok p

-- The same texts as those of `ProtocolType::from_str`.
unfoldable pub parse_protocol_type : String → Result ProtocolType
unfolding parse_protocol
parse_protocol_type s = known (parse_protocol s)

abbrev pub with_limit : Option ℤ → Value → Value
with_limit none o = o
with_limit (some limit) o = if leb_ℤ limit (pos 0) then o else put "limitIp" (int_value limit) o

abbrev pub vless_entry : String → String → String → Value
vless_entry id email flow =
    json_object (("id", text id) ∷ ("email", text email) ∷ ("flow", text flow) ∷ [])

abbrev pub member_of : List Uuid → Uuid → Bool
member_of ids id = any (λ i. i == id) ids

module _ (u : Uuids) where
  unfoldable pub client_to_protocol_entry : Client → String → Value
  unfolding put
  client_to_protocol_entry c protocol_type =
      let id = u.to_text c.id in
      let email = unwrap_or c.email id in
      if starts_with protocol_type "vless"
      then with_limit c.max_devices (
          vless_entry id email
            (if str_eq protocol_type "vless_reality" then "xtls-rprx-vision" else ""))
      else if str_eq protocol_type "hysteria2"
      then json_object (("name", text email) ∷ ("password", text id) ∷ [])
      else if str_eq protocol_type "anytls"
      then json_object (("name", text email) ∷ ("password", text id) ∷ [])
      else json_object (("id", text id) ∷ [])

  -- The clients of the groups, where there are any.
  unfoldable pub inject_clients_of : String → Value → List Uuid → Sql Tables Value
  unfolding put
  inject_clients_of protocol_type settings [] = pure settings
  inject_clients_of protocol_type settings (id ∷ ids) = do
    cs ← select (λ t. t.clients) (λ c. member_of (id ∷ ids) c.id && is_active_status c.status)
    pure (
        put "clients" (json_array (map (λ c. client_to_protocol_entry c protocol_type) cs))
          settings)

  unfoldable pub inject_groups : String → Value → List Uuid → Sql Tables Value
  unfolding inject_clients_of
  inject_groups protocol_type settings [] = pure settings
  inject_groups protocol_type settings (g ∷ gs) = do
    ms ← select (λ t. t.client_groups) (λ m. member_of (g ∷ gs) m.group_id)
    inject_clients_of protocol_type settings (map (λ m. m.client_id) ms)

  -- The settings with the clients of the binding.
  unfoldable pub inject_binding_clients : NodeBinding → String → Value → Sql Tables Value
  unfolding inject_groups
  inject_binding_clients binding protocol_type settings = do
    gs ← select (λ t. t.binding_groups) (λ g. g.node_binding_id == binding.id)
    inject_groups protocol_type settings (map (λ g. g.group_id) gs)

  abbrev owned : Uuid → Certificate → Result (Option Value)
  owned node_id cert =
      if cert.node_id == node_id
      then ok (some (json_object (("managed_domain", text cert.domain) ∷ [])))
      else err validation

  abbrev parsed : Option Uuid → Result Uuid
  parsed none = err validation
  parsed (some id) = ok id

  unfoldable pub resolve_cert : Uuid → Value → Option String → Sql Tables (Option Value)
  resolve_cert node_id tls none = pure (some tls)
  resolve_cert node_id tls (some raw) = do
    id ← lift (parsed (u.parse_str raw))
    row ← one (λ t. t.certificates) (λ c. c.id == id)
    cert ← lift (present row)
    lift (owned node_id cert)

  unfoldable pub resolve_managed_cert_tls : Uuid → Option Value → Sql Tables (Option Value)
  unfolding resolve_cert get
  resolve_managed_cert_tls node_id none = pure none
  resolve_managed_cert_tls node_id (some tls) =
      resolve_cert node_id tls (as_str (get "cert_id" tls))
