-- ===== src/Subscription.antt =====
-- The nodes of a subscription and its formats: crates/pp-subscription/src/generator.rs, and what the
-- formats share. The serialisation to JSON, YAML and Base64, the percent-encoding and the check
-- against the JSON schema are arguments.
pub mod Links
pub mod SingBox
pub mod Clash
pub mod Generate
pub mod Nodes
pub mod Serve
mod Tests
use multi_proxy_panel.Prelude.{
  ℕ, String, str_eq, Bool, true, false, not, ◌||◌, List, [], ◌∷◌, Option, none, some, if◌then◌else◌,
  unwrap_or,
}
use multi_proxy_panel.Prelude.Text.{is_empty}
use multi_proxy_panel.Prelude.Text.Replace.{to_ascii_lowercase}
use multi_proxy_panel.Db.{PanelError, subscription, Result, ok, err}
use multi_proxy_panel.Protocol.{ProtocolType}
use multi_proxy_panel.Json.{Value, boolean, get, as_str, get_str, str_or}
use multi_proxy_panel.Settings.{and_then, or_else, tls_has_real_certificate}

pub data SubscriptionFormat : Type 0 where
  base64 json clash sing_box_format v2ray_ng : SubscriptionFormat

pub record ProxyNode : Type 0 where
  pub name : String
  pub protocol : ProtocolType
  pub server : String
  pub port : ℕ
  pub settings : Value
  pub tls : Option Value

-- What the code uses of serde_json, serde_yaml, base64, url and jsonschema.
pub record Crates : Type 0 where
  -- `to_string` and `to_string_pretty`, which do not fail on a `Value`
  pub to_json : Value → String
  pub to_json_pretty : Value → String
  pub from_json : String → Option Value
  pub to_yaml : Value → Option String
  pub from_yaml : String → Option Value
  pub encode_base64 : String → String
  -- `byte_serialize`
  pub encode : String → String
  pub valid_singbox_config : Value → Bool

unfoldable pub parse_format : String → Option SubscriptionFormat
unfolding to_ascii_lowercase
parse_format text =
    let s = to_ascii_lowercase text in
    if str_eq s "base64" || str_eq s "default"
    then some base64
    else if str_eq s "json"
    then some json
    else if str_eq s "clash" || str_eq s "yaml"
    then some clash
    else if str_eq s "sing-box" || str_eq s "singbox"
    then some sing_box_format
    else if str_eq s "v2rayng"
    then some v2ray_ng
    else none

-- `?`
abbrev pub and_result : {A B : Type 0} → Result A → (A → Result B) → Result B
and_result (ok a) f = f a
and_result (err e) f = err e

-- `.ok_or_else(|| PanelError::Subscription(…))`
abbrev pub needed : {A : Type 0} → Option A → Result A
needed (some a) = ok a
needed none = err subscription

abbrev cons_result : {A : Type 0} → Result A → Result (List A) → Result (List A)
cons_result (err e) rest = err e
cons_result (ok a) (err e) = err e
cons_result (ok a) (ok rest) = ok (a ∷ rest)

-- `iter().map(f).collect::<Result<Vec<_>, _>>()`
abbrev pub collect_results : {A B : Type 0} → (A → Result B) → List A → Result (List B)
collect_results f [] = ok []
collect_results f (x ∷ xs) = cons_result (f x) (collect_results f xs)

abbrev pub as_bool : Option Value → Option Bool
as_bool (some (boolean b)) = some b
as_bool _ = none

-- `node.tls.as_ref().and_then(|t| t.get(k)).and_then(|v| v.as_str())`
abbrev pub tls_str : String → ProxyNode → Option String
tls_str k node = and_then node.tls (λ t. as_str (get k t))

abbrev pub either_text : String → String → Value → Option String
either_text a b settings = as_str (or_else (get a settings) (get b settings))

-- The certificate is not verified, where the settings say so, or where there is none.
unfoldable pub skip_verify : ProxyNode → Bool
unfolding tls_has_real_certificate get
skip_verify node =
    unwrap_or (as_bool (get "skip_cert_verify" node.settings))
      (not (tls_has_real_certificate node.tls))

-- The public key of REALITY, which must not be empty.
unfoldable pub reality_key : Value → Result String
unfolding get_str is_empty
reality_key settings = elim (get_str "public_key" settings) [
  | none ↦ err subscription
  | some key ↦ if is_empty key then err subscription else ok key
]
