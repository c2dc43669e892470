-- ===== src/Builder/SingBox.antt =====
-- The inbounds of sing-box: crates/pp-config/src/singbox.rs.
pub mod Full
pub mod Inbounds
use Prim.Native.String.{◌++◌ as ◌<>◌}
use multi_proxy_panel.Prelude.{
  ℕ, String, str_eq, Bool, true, false, not, ◌&&◌, ◌||◌, List, [], ◌∷◌, Option, none, some,
  if◌then◌else◌, unwrap_or,
}
use multi_proxy_panel.Prelude.Text.{comma_list, is_empty, parse_u64, rsplit_once}
use multi_proxy_panel.Db.{PanelError, config, validation}
use multi_proxy_panel.Protocol.{ProtocolType, vless_reality, vless_xhttp, hysteria2, anytls}
use multi_proxy_panel.Json.{
  Value, null, boolean, number, text, array, object, Items, get, as_str, as_array, get_str, str_or,
  u64_or, json_array, json_object, put, to_list,
}
use multi_proxy_panel.Settings.{or_else, first_server_name, first_short_id}
use multi_proxy_panel.Builder.{
  InboundConfig, Built, built, refused, and_build, required, texts_value, map_values,
  collect_inbounds,
}
use multi_proxy_panel.Builder.SingBoxTls.{
  either_str, build_singbox_reality_tls, build_singbox_server_tls,
}

unfoldable pub vless_user : Value → Value
unfolding get_str put is_empty
vless_user c =
    let user =
      json_object (("uuid", text (str_or "id" "" c)) ∷ ("name", text (str_or "email" "" c)) ∷ []) in
    let flow = str_or "flow" "" c in if is_empty flow then user else put "flow" (text flow) user

abbrev single_vless_user : String → Value
single_vless_user uuid =
    if is_empty uuid
    then json_array []
    else json_array (json_object (("uuid", text uuid) ∷ ("name", text "") ∷ []) ∷ [])

abbrev users_from : (Value → Value) → Value → Option Items → Value
users_from user fallback none = fallback
users_from user fallback (some clients) = map_values user clients

unfoldable pub vless_clients_to_users : Value → Value
unfolding vless_user
vless_clients_to_users settings =
    users_from vless_user (single_vless_user (str_or "uuid" "" settings))
      (as_array (get "clients" settings))

unfoldable pub password_user : Value → Value
unfolding get_str
password_user c =
    json_object
      (("name", text (str_or "name" "" c)) ∷ ("password", text (str_or "password" "" c)) ∷ [])

abbrev single_password_user : String → Value
single_password_user password =
    if is_empty password
    then json_array []
    else json_array (json_object (("name", text "") ∷ ("password", text password) ∷ []) ∷ [])

unfoldable pub password_clients_to_users : Value → Value
unfolding password_user is_empty
password_clients_to_users settings =
    users_from password_user (single_password_user (str_or "password" "" settings))
      (as_array (get "clients" settings))

abbrev host_headers : String → Value
host_headers host = if is_empty host then json_object [] else json_object (("Host", text host) ∷ [])

unfoldable pub build_singbox_transport : String → Value → Value
unfolding get_str is_empty
build_singbox_transport network settings =
    if str_eq network "ws"
    then json_object (
        ("type", text "ws")
        ∷ ("path", text (str_or "path" "/" settings))
        ∷ ("headers", host_headers (str_or "host" "" settings))
        ∷ [])
    else if str_eq network "grpc"
    then json_object
        (("type", text "grpc") ∷ ("service_name", text (str_or "service_name" "" settings)) ∷ [])
    else if str_eq network "httpupgrade" || str_eq network "xhttp"
    then json_object (
        ("type", text "httpupgrade")
        ∷ ("path", text (unwrap_or (either_str "path" "xhttp_path" settings) "/"))
        ∷ ("host", text (unwrap_or (either_str "host" "xhttp_host" settings) ""))
        ∷ [])
    else null

abbrev with_transport : Value → Value → Value
with_transport null inbound = inbound
with_transport transport inbound = put "transport" transport inbound

abbrev flow_on : String → Option Items → Value → Value
flow_on flow none inbound = inbound
flow_on flow (some users) inbound = put "users" (map_values (put "flow" (text flow)) users) inbound

abbrev with_flow : String → Value → Value
with_flow flow inbound =
    if is_empty flow then inbound else flow_on flow (as_array (get "users" inbound)) inbound

abbrev inbound_base : String → String → Value → Value → List (String × Value) → Value
inbound_base kind default_tag users settings more = json_object (
    ("type", text kind)
    ∷ ("tag", text (str_or "tag" default_tag settings))
    ∷ ("listen", text (str_or "listen" "::" settings))
    ∷ ("listen_port", number (u64_or "port" 443 settings))
    ∷ ("users", users)
    ∷ more)

abbrev pub vless_with_tls : Value → Option Value → Built Value
vless_with_tls inbound none =
    refused validation "VLESS+REALITY requires reality_dest and reality_private_key"
vless_with_tls inbound (some tls) = built (put "tls" tls inbound)

unfoldable pub build_vless_inbound : Value → Built Value
unfolding vless_clients_to_users build_singbox_transport build_singbox_reality_tls put
build_vless_inbound settings =
    vless_with_tls
      (with_flow (str_or "flow" "" settings) (
        with_transport (build_singbox_transport (str_or "network" "tcp" settings) settings)
          (inbound_base "vless" "vless-in" (vless_clients_to_users settings) settings [])))
      (build_singbox_reality_tls settings)

-- Whether a password hides the traffic.
abbrev pub obfs_on : String → String → Bool
obfs_on kind password = not (str_eq kind "none") && not (is_empty password)

abbrev hysteria2_inbound : Value → Value → Value
hysteria2_inbound settings tls =
    let obfs_type = str_or "obfs_type" "none" settings in
    let obfs_password = str_or "obfs_password" "" settings in
    let inbound = inbound_base "hysteria2" "hy2-in" (password_clients_to_users settings) settings (
      ("tls", put "alpn" (texts_value ("h3" ∷ [])) tls)
      ∷ ("up_mbps", number (u64_or "up_mbps" 100 settings))
      ∷ ("down_mbps", number (u64_or "down_mbps" 100 settings))
      ∷ []) in
    if obfs_on obfs_type obfs_password
    then put "obfs" (json_object (("type", text obfs_type) ∷ ("password", text obfs_password) ∷ []))
        inbound
    else inbound

unfoldable pub build_hysteria2_inbound : Value → Option Value → Built Value
unfolding password_clients_to_users build_singbox_server_tls put
build_hysteria2_inbound settings tls =
    and_build (build_singbox_server_tls tls) (λ o. built (hysteria2_inbound settings o))

abbrev anytls_inbound : Value → Value → Value
anytls_inbound settings tls =
    let inbound =
      inbound_base "anytls" "anytls-in" (password_clients_to_users settings) settings
        (("tls", tls) ∷ []) in
    let masquerade = str_or "masquerade" "" settings in
    if is_empty masquerade then inbound else put "masquerade" (text masquerade) inbound

unfoldable pub build_anytls_inbound : Value → Option Value → Built Value
unfolding password_clients_to_users build_singbox_server_tls put
build_anytls_inbound settings tls =
    and_build (build_singbox_server_tls tls) (λ o. built (anytls_inbound settings o))

unfoldable pub build_inbound : ProtocolType → Value → Option Value → Built Value
unfolding build_vless_inbound build_hysteria2_inbound build_anytls_inbound
build_inbound vless_reality settings tls = build_vless_inbound settings
build_inbound hysteria2 settings tls = build_hysteria2_inbound settings tls
build_inbound anytls settings tls = build_anytls_inbound settings tls
build_inbound vless_xhttp settings tls =
    refused config "protocol VlessXhttp not supported by sing-box"

abbrev pub inbound_of : InboundConfig → Built Value
inbound_of i = build_inbound i.protocol i.settings i.tls
