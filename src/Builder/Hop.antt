-- ===== src/Builder/Hop.antt =====
-- The outbound of a relay rule to its exit: crates/pp-config/src/relay.rs.
pub mod Exits
use multi_proxy_panel.Prelude.{
  ℕ, String, str_eq, Bool, true, false, not, ◌&&◌, List, [], ◌∷◌, Option, none, some, if◌then◌else◌,
  unwrap_or, find,
}
use multi_proxy_panel.Prelude.Text.{trim, split, split_by, is_empty}
use multi_proxy_panel.Db.{PanelError, config}
use multi_proxy_panel.Protocol.{ProtocolType, vless_reality, vless_xhttp, hysteria2, anytls}
use multi_proxy_panel.Json.{
  Value, boolean, number, text, array, Items, no_items, item, get, get_str, u64_or, json_object,
  put,
}
use multi_proxy_panel.Settings.{or_else, first, non_empty}
use multi_proxy_panel.Builder.{Built, built, refused, and_build, required}

pub record RelayHop : Type 0 where
  pub tag : String
  pub protocol : ProtocolType
  pub settings : Value
  pub server : String
  pub port : ℕ
  pub credential : String
  pub tls_sni : Option String

unfoldable pub str_setting : List String → Value → Option String
unfolding get_str is_empty
str_setting [] settings = none
str_setting (k ∷ ks) settings = or_else (non_empty (get_str k settings)) (str_setting ks settings)

unfoldable pub first_text : Items → Option String
unfolding is_empty
first_text no_items = none
first_text (item (text s) xs) = or_else (non_empty (some s)) (first_text xs)
first_text (item _ xs) = first_text xs

abbrev before_comma : List String → String → String
before_comma [] s = s
before_comma (t ∷ ts) s = t

unfoldable pub text_at : Option Value → Option String
unfolding trim split_by first_text is_empty
text_at (some (text s)) = if is_empty s then none else some (trim (before_comma (split b',' s) s))
text_at (some (array xs)) = first_text xs
text_at _ = none

unfoldable pub first_string_setting : List String → Value → Option String
unfolding get text_at
first_string_setting [] settings = none
first_string_setting (k ∷ ks) settings =
    or_else (text_at (get k settings)) (first_string_setting ks settings)

abbrev put_text : String → String → Value → Value
put_text key s o = if is_empty s then o else put key (text s) o

abbrev no_public_key : String
no_public_key = "vless_reality relay requires settings.public_key"

abbrev no_server_names : String
no_server_names = "vless_reality relay requires server_names"

abbrev no_sni : ProtocolType → String
no_sni hysteria2 = "hysteria2 relay requires TLS SNI"
no_sni _ = "anytls relay requires TLS SNI"

abbrev obfs_type_of : Value → String
obfs_type_of settings = unwrap_or (str_setting ("obfs_type" ∷ []) settings) "none"

abbrev obfs_password_of : Value → String
obfs_password_of settings = unwrap_or (str_setting ("obfs_password" ∷ []) settings) ""

abbrev pub hides : Value → Bool
hides settings =
    not (str_eq (obfs_type_of settings) "none") && not (is_empty (obfs_password_of settings))

-- The settings of a reality hop.
abbrev pub reality_settings : Value → (String → String → Value) → Built Value
reality_settings settings f =
    and_build (required (str_setting ("public_key" ∷ []) settings) config no_public_key)
      λ public_key.
        and_build
          (required (first_string_setting ("reality_server_names" ∷ "server_names" ∷ []) settings)
            config no_server_names)
          λ server_name. built (f public_key server_name)

abbrev short_id_of : Value → String
short_id_of settings =
    unwrap_or (first_string_setting ("reality_short_id" ∷ "short_id" ∷ []) settings) ""

abbrev pub flow_of : Value → String
flow_of settings = unwrap_or (str_setting ("flow" ∷ []) settings) ""

abbrev pub singbox_vless : RelayHop → String → String → Value
singbox_vless hop public_key server_name =
    let reality =
      put_text "short_id" (short_id_of hop.settings)
        (json_object (("enabled", boolean true) ∷ ("public_key", text public_key) ∷ [])) in
    put_text "flow" (flow_of hop.settings) (
      json_object (
        ("type", text "vless")
        ∷ ("tag", text hop.tag)
        ∷ ("server", text hop.server)
        ∷ ("server_port", number hop.port)
        ∷ ("uuid", text hop.credential)
        ∷ (
          "tls",
          json_object (
              ("enabled", boolean true)
              ∷ ("server_name", text server_name)
              ∷ ("reality", reality)
              ∷ []),
        )
        ∷ []))

abbrev singbox_password : String → RelayHop → String → List (String × Value) → Value
singbox_password kind hop sni more = json_object (
    ("type", text kind)
    ∷ ("tag", text hop.tag)
    ∷ ("server", text hop.server)
    ∷ ("server_port", number hop.port)
    ∷ ("password", text hop.credential)
    ∷ ("tls", json_object (("enabled", boolean true) ∷ ("server_name", text sni) ∷ []))
    ∷ more)

abbrev singbox_hysteria2 : RelayHop → String → Value
singbox_hysteria2 hop sni =
    let out = singbox_password "hysteria2" hop sni (
      ("up_mbps", number (u64_or "up_mbps" 100 hop.settings))
      ∷ ("down_mbps", number (u64_or "down_mbps" 100 hop.settings))
      ∷ []) in
    if hides hop.settings
    then put "obfs"
        (json_object (
          ("type", text (obfs_type_of hop.settings))
          ∷ ("password", text (obfs_password_of hop.settings))
          ∷ []))
        out
    else out

abbrev no_exit : ProtocolType → String
no_exit p = "protocol VlessXhttp cannot be a relay exit"

abbrev pub singbox_for : RelayHop → ProtocolType → Built Value
singbox_for hop vless_reality = reality_settings hop.settings (singbox_vless hop)
singbox_for hop hysteria2 =
    and_build (required hop.tls_sni config (no_sni hysteria2))
      (λ sni. built (singbox_hysteria2 hop sni))
singbox_for hop anytls =
    and_build (required hop.tls_sni config (no_sni anytls))
      (λ sni. built (singbox_password "anytls" hop sni []))
singbox_for hop vless_xhttp = refused config (no_exit vless_xhttp)

unfoldable pub build_singbox_outbound : RelayHop → Built Value
unfolding str_setting first_string_setting put is_empty
build_singbox_outbound hop = singbox_for hop hop.protocol

abbrev mihomo_base : String → RelayHop → List (String × Value) → Value
mihomo_base kind hop more = json_object (
    ("name", text hop.tag)
    ∷ ("type", text kind)
    ∷ ("server", text hop.server)
    ∷ ("port", number hop.port)
    ∷ more)

abbrev mihomo_vless : RelayHop → String → String → Value
mihomo_vless hop public_key server_name =
    let reality_opts =
      put_text "short-id" (short_id_of hop.settings)
        (json_object (("public-key", text public_key) ∷ [])) in
    put_text "flow" (flow_of hop.settings) (
      mihomo_base "vless" hop (
        ("uuid", text hop.credential)
        ∷ ("network", text "tcp")
        ∷ ("tls", boolean true)
        ∷ ("servername", text server_name)
        ∷ ("reality-opts", reality_opts)
        ∷ []))

abbrev mihomo_hysteria2 : RelayHop → String → Value
mihomo_hysteria2 hop sni =
    let out = mihomo_base "hysteria2" hop (
      ("password", text hop.credential)
      ∷ ("sni", text sni)
      ∷ ("up", number (u64_or "up_mbps" 100 hop.settings))
      ∷ ("down", number (u64_or "down_mbps" 100 hop.settings))
      ∷ []) in
    if hides hop.settings
    then put "obfs-password" (text (obfs_password_of hop.settings))
        (put "obfs" (text (obfs_type_of hop.settings)) out)
    else out

abbrev pub mihomo_for : RelayHop → ProtocolType → Built Value
mihomo_for hop vless_reality = reality_settings hop.settings (mihomo_vless hop)
mihomo_for hop hysteria2 =
    and_build (required hop.tls_sni config (no_sni hysteria2))
      (λ sni. built (mihomo_hysteria2 hop sni))
mihomo_for hop anytls = and_build (required hop.tls_sni config (no_sni anytls)) (λ sni.
    built (mihomo_base "anytls" hop (("password", text hop.credential) ∷ ("sni", text sni) ∷ [])))
mihomo_for hop vless_xhttp = refused config (no_exit vless_xhttp)

unfoldable pub build_mihomo_proxy : RelayHop → Built Value
unfolding str_setting first_string_setting put is_empty
build_mihomo_proxy hop = mihomo_for hop hop.protocol
