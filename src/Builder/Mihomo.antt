-- ===== src/Builder/Mihomo.antt =====
-- The builder of mihomo configs: crates/pp-config/src/mihomo.rs. The environment variables are an
-- argument.
pub mod Same
use Prim.Native.String.{◌++◌ as ◌<>◌}
use multi_proxy_panel.Prelude.{
  ℕ, suc, String, str_eq, Bool, true, false, not, ◌&&◌, List, [], ◌∷◌, Option, none, some,
  if◌then◌else◌, unwrap_or,
}
use multi_proxy_panel.Prelude.Text.{comma_list, is_empty, rsplit_once, to_string}
use multi_proxy_panel.Db.{PanelError, validation}
use multi_proxy_panel.Protocol.{ProtocolType, vless_reality, vless_xhttp, hysteria2, anytls}
use multi_proxy_panel.Json.{
  Value, boolean, number, text, array, object, Items, no_items, item, Fields, no_fields, get,
  as_array, get_str, u64_or, json_array, json_object, put, put_field, to_list,
}
use multi_proxy_panel.Settings.{or_else, non_empty}
use multi_proxy_panel.Builder.{
  InboundConfig, Built, built, refused, and_build, required, texts_value, map_values,
  collect_inbounds,
}
use multi_proxy_panel.Builder.MihomoUsers.{setting_str, setting_or, vless_users, password_users}

unfoldable pub listener_base : Value → String → Value
unfolding setting_str to_string
listener_base settings default_name = json_object (
    ("name", text (setting_or ("tag" ∷ []) default_name settings))
    ∷ ("listen", text (setting_or ("listen" ∷ []) "0.0.0.0" settings))
    ∷ ("port", text (to_string (u64_or "port" 443 settings)))
    ∷ [])

abbrev pub with_certificate : String → String → Value → Value
with_certificate cert key listener =
    put "private-key" (text key) (put "certificate" (text cert) listener)

unfoldable pub apply_cert_tls : Value → Option Value → Built Value
unfolding setting_str is_empty put
apply_cert_tls listener none = refused validation "TLS configuration is required"
apply_cert_tls listener (some tls) =
    let managed = setting_or ("managed_domain" ∷ []) "" tls in
    let cert = setting_or ("certFile" ∷ []) "" tls in
    let key = setting_or ("keyFile" ∷ []) "" tls in
    if not (is_empty managed)
    then built (
        with_certificate ("certs/" <> (managed <> ".crt")) ("certs/" <> (managed <> ".key"))
          listener)
    else if not (is_empty cert) && not (is_empty key)
    then built (with_certificate cert key listener)
    else refused validation "mihomo TLS requires a managed certificate or certFile+keyFile"

abbrev host_of : String → Option (String × String) → String
host_of dest none = dest
host_of dest (some (host, port)) = host

abbrev names_or : List String → String → List String
names_or [] host = host ∷ []
names_or (n ∷ ns) host = n ∷ ns

abbrev ids_value : List String → Value
ids_value [] = texts_value ("" ∷ [])
ids_value (id ∷ ids) = texts_value (id ∷ ids)

abbrev no_reality : String
no_reality = "VLESS+REALITY requires reality_dest and reality_private_key"

unfoldable pub reality_listener : Value → String → String → Value
unfolding setting_str comma_list rsplit_once listener_base vless_users put
reality_listener settings dest private_key =
    let server_names =
      comma_list (setting_or ("reality_server_names" ∷ "server_names" ∷ []) "" settings) in
    let short_ids = comma_list (setting_or ("reality_short_id" ∷ "short_id" ∷ []) "" settings) in
    put "reality-config"
      (json_object (
        ("dest", text dest)
        ∷ ("private-key", text private_key)
        ∷ (
          "server-names",
          texts_value (names_or server_names (host_of dest (rsplit_once b':' dest))),
        )
        ∷ ("short-id", ids_value short_ids)
        ∷ []))
      (put "users" (vless_users settings true)
        (put "type" (text "vless") (listener_base settings "vless-reality-in")))

unfoldable pub build_vless_reality_listener : Value → Built Value
unfolding reality_listener setting_str is_empty
build_vless_reality_listener settings =
    and_build
      (required (non_empty (setting_str ("reality_dest" ∷ "dest" ∷ []) settings)) validation
        no_reality)
      (λ dest.
        and_build
          (required (non_empty (setting_str ("reality_private_key" ∷ "private_key" ∷ []) settings))
            validation no_reality)
          (λ private_key. built (reality_listener settings dest private_key)))

unfoldable pub build_vless_xhttp_listener : Value → Option Value → Built Value
unfolding apply_cert_tls setting_str put listener_base vless_users
build_vless_xhttp_listener settings tls =
    let listener =
      put "users" (vless_users settings false)
        (put "type" (text "vless") (listener_base settings "vless-xhttp-in")) in
    and_build (apply_cert_tls listener tls) λ l. built (
      put "xhttp-config"
        (json_object (
          ("path", text (setting_or ("xhttp_path" ∷ "path" ∷ []) "/" settings))
          ∷ ("host", text (setting_or ("xhttp_host" ∷ "host" ∷ []) "" settings))
          ∷ ("mode", text (setting_or ("xhttp_mode" ∷ "mode" ∷ []) "auto" settings))
          ∷ []))
        l)

abbrev with_obfs : String → String → Value → Value
with_obfs obfs_type obfs_password l =
    if not (str_eq obfs_type "none") && not (is_empty obfs_password)
    then put "obfs-password" (text obfs_password) (put "obfs" (text obfs_type) l)
    else l

abbrev with_masquerade : Option String → Value → Value
with_masquerade none l = l
with_masquerade (some m) l = put "masquerade" (text m) l

unfoldable pub build_hysteria2_listener : Value → Option Value → Built Value
unfolding apply_cert_tls setting_str put listener_base password_users is_empty to_string
build_hysteria2_listener settings tls =
    let listener =
      put "users" (password_users settings)
        (put "type" (text "hysteria2") (listener_base settings "hy2-in")) in
    and_build (apply_cert_tls listener tls) λ l.
      let alpn = put "alpn" (texts_value ("h3" ∷ [])) l in
      let up = put "up" (text (to_string (u64_or "up_mbps" 100 settings))) alpn in
      let down = put "down" (text (to_string (u64_or "down_mbps" 100 settings))) up in
      built (
        with_masquerade (non_empty (setting_str ("masquerade" ∷ []) settings)) (
          with_obfs (setting_or ("obfs_type" ∷ []) "none" settings)
            (setting_or ("obfs_password" ∷ []) "" settings) down))

unfoldable pub build_anytls_listener : Value → Option Value → Built Value
unfolding apply_cert_tls put listener_base password_users
build_anytls_listener settings tls =
    apply_cert_tls
      (put "users" (password_users settings)
        (put "type" (text "anytls") (listener_base settings "anytls-in")))
      tls

unfoldable pub build_inbound : ProtocolType → Value → Option Value → Built Value
unfolding build_vless_reality_listener build_vless_xhttp_listener build_hysteria2_listener
build_inbound vless_reality settings tls = build_vless_reality_listener settings
build_inbound vless_xhttp settings tls = build_vless_xhttp_listener settings tls
build_inbound hysteria2 settings tls = build_hysteria2_listener settings tls
build_inbound anytls settings tls = build_anytls_listener settings tls

abbrev pub skippable : ProtocolType → Bool
skippable vless_reality = false
skippable _ = true

abbrev pub inbound_of : InboundConfig → Built Value
inbound_of i = build_inbound i.protocol i.settings i.tls

-- Variables of the environment.
module _ (var : String → Option String) where
  unfoldable pub mihomo_api_listen : String
  mihomo_api_listen = unwrap_or (var "PROXYPANEL_MIHOMO_API_LISTEN") "127.0.0.1:9093"

  abbrev config_from : List Value → Value
  config_from listeners =
      let config = json_object (
        ("log-level", text "warning")
        ∷ ("mode", text "rule")
        ∷ ("allow-lan", boolean false)
        ∷ ("external-controller", text mihomo_api_listen)
        ∷ ("listeners", json_array listeners)
        ∷ ("rules", texts_value ("MATCH,DIRECT" ∷ []))
        ∷ []) in
      let secret = unwrap_or (var "PROXYPANEL_MIHOMO_API_SECRET") "" in
      if is_empty secret then config else put "secret" (text secret) config

  unfoldable pub build_full_config : List InboundConfig → Built Value
  unfolding build_inbound collect_inbounds mihomo_api_listen put is_empty
  build_full_config inbounds =
      and_build (collect_inbounds inbound_of skippable inbounds) (λ vs. built (config_from vs))
