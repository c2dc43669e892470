-- ===== src/Subscription/Clash.antt =====
-- The subscription for Clash and mihomo: crates/pp-subscription/src/formats/clash.rs.
pub mod Template
pub mod Placeholders
use multi_proxy_panel.Prelude.{
  ℕ, String, str_eq, Bool, true, false, not, ◌||◌, List, [], ◌∷◌, ◌++◌, map, Option, none, some,
  if◌then◌else◌, unwrap_or,
}
use Prim.Native.String.{◌++◌ as ◌<>◌}
use multi_proxy_panel.Prelude.Text.{contains, is_empty, trim, trim_end}
use multi_proxy_panel.Prelude.Text.Replace.{
  replace, spaces, indent_size, last_line, lines, skip_newlines, text_before,
}
use multi_proxy_panel.Db.{PanelError, internal, subscription, Result, ok, err}
use multi_proxy_panel.Protocol.{ProtocolType, vless_reality, vless_xhttp, hysteria2, anytls}
use multi_proxy_panel.Json.{
  Value, Items, boolean, number, null, text, array, object, get, as_str, get_str, str_or, u64_or,
  json_array, json_object, put, to_list,
}
use multi_proxy_panel.Settings.{
  or_else, first_server_name, first_short_id, client_uuid, client_password,
  tls_has_real_certificate,
}
use multi_proxy_panel.Subscription.{
  ProxyNode, Crates, and_result, needed, collect_results, tls_str, skip_verify, either_text,
}

abbrev put_text : String → Option String → Value → Value
put_text k none o = o
put_text k (some s) o = put k (text s) o

abbrev text_value : String → Option String → List (String × Value)
text_value k o = (k, text (unwrap_or o "")) ∷ []

-- The network, which the protocol may fix.
unfoldable pub network_of : ProxyNode → String
unfolding get_str
network_of node = elim node.protocol [
  | vless_xhttp ↦ "xhttp"
  | _ ↦ str_or "network" "tcp" node.settings
]

abbrev tls_on : Option Value → Value → Value
tls_on none proxy = proxy
tls_on (some tls) proxy = put_text "sni" (get_str "serverName" tls) (put "tls" (boolean true) proxy)

unfoldable pub apply_transport_settings : String → Value → Option Value → Value → Value
unfolding put get_str
apply_transport_settings network settings tls proxy =
    if str_eq network "ws"
    then put "ws-opts"
        (json_object (
          ("path", text (str_or "path" "/" settings))
          ∷ ("headers", json_object (("Host", text (str_or "host" "" settings)) ∷ []))
          ∷ []))
        proxy
    else if str_eq network "grpc"
    then put "grpc-opts"
        (json_object (("grpc-service-name", text (str_or "service_name" "" settings)) ∷ [])) proxy
    else if str_eq network "tcp"
    then tls_on tls proxy
    else proxy

unfoldable pub with_reality : Value → Value → Value
unfolding put get get_str first_short_id first_server_name
with_reality s proxy =
    put "reality-opts"
      (json_object (
        ("enabled", boolean true)
        ∷ ("public-key", text (str_or "public_key" "" s))
        ∷ ("short-id", text (unwrap_or (first_short_id s) ""))
        ∷ []))
      (put "client-fingerprint"
        (text (unwrap_or (either_text "client_fingerprint" "fingerprint" s) "chrome"))
        (put "servername" (text (unwrap_or (first_server_name s) ""))
          (put "tls" (boolean true) proxy)))

unfoldable pub with_xhttp : ProxyNode → Value → Value
unfolding put get tls_has_real_certificate
with_xhttp node proxy =
    let s = node.settings in
    put "skip-cert-verify" (boolean (not (tls_has_real_certificate node.tls))) (
      put "servername" (text (unwrap_or (tls_str "serverName" node) node.server)) (
        put "xhttp-opts"
          (json_object (
            ("mode", text (unwrap_or (either_text "xhttp_mode" "mode" s) "auto"))
            ∷ ("host", text (unwrap_or (either_text "xhttp_host" "host" s) ""))
            ∷ ("path", text (unwrap_or (either_text "xhttp_path" "path" s) "/"))
            ∷ []))
          (put "tls" (boolean true) proxy)))

unfoldable pub with_protocol : ProxyNode → Value → Value
unfolding with_reality with_xhttp
with_protocol node proxy = elim node.protocol [
  | vless_reality ↦ with_reality node.settings proxy
  | vless_xhttp ↦ with_xhttp node proxy
  | _ ↦ proxy
]

abbrev proxy_base : String → ProxyNode → List (String × Value) → Value
proxy_base kind node more = json_object (
    ("name", text node.name)
    ∷ ("type", text kind)
    ∷ ("server", text node.server)
    ∷ ("port", number node.port)
    ∷ more)

abbrev with_flow : String → Value → Value
with_flow flow proxy = if is_empty flow then proxy else put "flow" (text flow) proxy

unfoldable pub build_vless_proxy : ProxyNode → Result Value
unfolding client_uuid network_of with_protocol apply_transport_settings
build_vless_proxy node = and_result (needed (client_uuid node.settings)) λ uuid.
    let network = network_of node in
    ok (
      apply_transport_settings network node.settings node.tls (
        with_protocol node (
          with_flow (str_or "flow" "" node.settings) (
            proxy_base "vless" node
              (("uuid", text uuid) ∷ ("network", text network) ∷ ("udp", boolean true) ∷ [])))))

unfoldable pub sni_of : ProxyNode → String
unfolding get_str
sni_of node =
    unwrap_or (or_else (get_str "sni" node.settings) (tls_str "serverName" node)) node.server

abbrev with_obfs : Option String → Option String → Value → Value
with_obfs none password proxy = proxy
with_obfs (some kind) password proxy =
    if str_eq kind "none"
    then proxy
    else put_text "obfs-password" password (put "obfs" (text kind) proxy)

unfoldable pub build_hysteria2_proxy : ProxyNode → Result Value
unfolding client_password sni_of skip_verify get_str
build_hysteria2_proxy node = and_result (needed (client_password node.settings)) λ password.
    let s = node.settings in
    ok (
      with_obfs (get_str "obfs_type" s) (get_str "obfs_password" s) (
        proxy_base "hysteria2" node (
          ("password", text password)
          ∷ ("sni", text (sni_of node))
          ∷ ("skip-cert-verify", boolean (skip_verify node))
          ∷ ("alpn", json_array (text "h3" ∷ []))
          ∷ ("up", number (u64_or "up_mbps" 100 s))
          ∷ ("down", number (u64_or "down_mbps" 100 s))
          ∷ ("udp", boolean true)
          ∷ [])))

unfoldable pub build_anytls_proxy : ProxyNode → Result Value
unfolding client_password sni_of skip_verify
build_anytls_proxy node = and_result (needed (client_password node.settings)) λ password. ok (
    proxy_base "anytls" node (
      ("password", text password)
      ∷ ("sni", text (sni_of node))
      ∷ ("skip-cert-verify", boolean (skip_verify node))
      ∷ ("udp", boolean true)
      ∷ []))

unfoldable pub build_proxy : ProxyNode → Result Value
unfolding build_vless_proxy build_hysteria2_proxy build_anytls_proxy
build_proxy node = elim node.protocol [
  | vless_reality ↦ build_vless_proxy node
  | vless_xhttp ↦ build_vless_proxy node
  | hysteria2 ↦ build_hysteria2_proxy node
  | anytls ↦ build_anytls_proxy node
]
