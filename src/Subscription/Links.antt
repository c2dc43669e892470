-- ===== src/Subscription/Links.antt =====
-- The share links of a Base64 subscription: crates/pp-subscription/src/formats/base64.rs.
use Prim.Native.String.{◌++◌ as ◌<>◌}
use multi_proxy_panel.Prelude.{
  String, str_eq, Bool, true, false, ◌||◌, List, [], ◌∷◌, ◌++◌, Option, none, some, if◌then◌else◌,
  unwrap_or,
}
use multi_proxy_panel.Prelude.Text.{is_empty, to_string}
use multi_proxy_panel.Prelude.Text.Replace.{replace_from, replace, join}
use multi_proxy_panel.Db.{Result, ok}
use multi_proxy_panel.Protocol.{vless_reality, vless_xhttp, hysteria2, anytls}
use multi_proxy_panel.Json.{Value, get, as_u64, get_str, str_or}
use multi_proxy_panel.Settings.{
  or_else, first_server_name, first_short_id, client_uuid, client_password,
}
use multi_proxy_panel.Subscription.{
  ProxyNode, Crates, and_result, needed, collect_results, tls_str, skip_verify, reality_key,
}
use multi_proxy_panel.Subscription.Clash.{network_of}

unfoldable pub tls_server_name : ProxyNode → Option String
unfolding get get_str
tls_server_name node = or_else (tls_str "serverName" node) (get_str "sni" node.settings)

unfoldable pub tls_fingerprint : ProxyNode → Option String
unfolding get get_str
tls_fingerprint node = or_else (tls_str "fingerprint" node) (get_str "fingerprint" node.settings)

unfoldable pub tls_alpn : ProxyNode → Option String
unfolding get get_str
tls_alpn node = or_else (tls_str "alpn" node) (get_str "alpn" node.settings)

-- `if let Some(v) = … { params.push(format!("k={}", f(v))) }`
abbrev param : {A : Type 0} → String → (A → String) → Option A → List String
param k f none = []
param k f (some v) = (k <> f v) ∷ []

abbrev same : String → String
same s = s

abbrev not_empty_param : String → (String → String) → String → List String
not_empty_param k f s = if is_empty s then [] else (k <> f s) ∷ []

abbrev insecure_flag : Bool → String
insecure_flag true = "1"
insecure_flag false = "0"

module _ (k : Crates) where
  -- Where the first key has no text, the second.
  abbrev either_param : String → (String → String) → String → String → Value → List String
  either_param name f a b settings =
      param name f (or_else (get_str a settings) (get_str b settings))

  unfoldable pub transport_params : String → Value → List String
  unfolding get_str
  transport_params network s =
      if str_eq network "ws"
      then param "path=" k.encode (get_str "path" s) ++ param "host=" k.encode (get_str "host" s)
      else if str_eq network "grpc"
      then param "serviceName=" k.encode (get_str "service_name" s)
      else if str_eq network "xhttp"
      then either_param "path=" k.encode "xhttp_path" "path" s
        ++ (either_param "host=" k.encode "xhttp_host" "host" s
            ++ either_param "mode=" same "xhttp_mode" "mode" s)
      else if str_eq network "kcp" || str_eq network "mkcp"
      then param "seed=" k.encode (get_str "seed" s)
        ++ param "headerType=" same (get_str "header_type" s)
      else []

  unfoldable pub reality_params : Value → String → List String
  unfolding get_str is_empty first_server_name first_short_id
  reality_params s public_key =
      ("security=reality" ∷ [])
      ++ (not_empty_param "sni=" k.encode (unwrap_or (first_server_name s) "")
          ++ ((("pbk=" <> k.encode public_key) ∷ [])
              ++ (not_empty_param "sid=" k.encode (unwrap_or (first_short_id s) "")
                  ++ (not_empty_param "spx=" k.encode (str_or "spider_x" "" s)
                      ++ (("fp=" <> str_or "fingerprint" "chrome" s) ∷ [])))))

  abbrev tls_params_of : Option Value → ProxyNode → List String
  tls_params_of none node = []
  tls_params_of (some tls) node =
      "security=tls"
      ∷ (param "sni=" k.encode (tls_server_name node)
          ++ (param "fp=" same (tls_fingerprint node) ++ param "alpn=" k.encode (tls_alpn node)))

  unfoldable pub security_params : ProxyNode → Result (List String)
  unfolding reality_key reality_params tls_server_name tls_fingerprint tls_alpn
  security_params node = elim node.protocol [
    | vless_reality ↦
        and_result (reality_key node.settings) λ key. ok (reality_params node.settings key)
    | _ ↦ ok (tls_params_of node.tls node)
  ]

  unfoldable pub encode_fragment : String → String
  unfolding replace_from
  encode_fragment s = replace (k.encode s) "+" "%20"

  unfoldable pub link : String → String → ProxyNode → List String → String
  unfolding encode_fragment to_string
  link scheme user node params =
      scheme
      <> (user
          <> ("@"
              <> (node.server
                  <> (":"
                      <> (to_string node.port
                          <> ("?" <> (join "&" params <> ("#" <> encode_fragment node.name))))))))

  unfoldable pub generate_vless_link : ProxyNode → Result String
  unfolding client_uuid network_of transport_params security_params link get_str
  generate_vless_link node = and_result (needed (client_uuid node.settings)) λ id.
      and_result (security_params node) λ security.
        let network = network_of node in
        let flow = str_or "flow" "" node.settings in
        ok (
          link "vless://" id node (
            (("type=" <> network) ∷ [])
            ++ (not_empty_param "flow=" same flow
                ++ (transport_params network node.settings ++ security))))

  abbrev sni_or_server : ProxyNode → String
  sni_or_server node = unwrap_or (tls_server_name node) node.server

  abbrev verify_params : ProxyNode → List String
  verify_params node =
      ("sni=" <> k.encode (sni_or_server node))
      ∷ ("insecure=" <> insecure_flag (skip_verify node))
      ∷ []

  abbrev obfs_params : Option String → Option String → List String
  obfs_params none password = []
  obfs_params (some kind) password =
      if str_eq kind "none"
      then []
      else ("obfs=" <> kind) ∷ param "obfs-password=" k.encode password

  unfoldable pub generate_hysteria2_link : ProxyNode → Result String
  unfolding client_password tls_server_name tls_alpn skip_verify link get_str get to_string
  generate_hysteria2_link node = and_result (needed (client_password node.settings)) λ password.
      let s = node.settings in
      ok (
        link "hysteria2://" (k.encode password) node (
          verify_params node
          ++ (param "upmbps=" to_string (as_u64 (get "up_mbps" s))
              ++ (param "downmbps=" to_string (as_u64 (get "down_mbps" s))
                  ++ (obfs_params (get_str "obfs_type" s) (get_str "obfs_password" s)
                      ++ (("alpn=" <> k.encode (unwrap_or (tls_alpn node) "h3")) ∷ []))))))

  unfoldable pub generate_anytls_link : ProxyNode → Result String
  unfolding client_password tls_server_name tls_alpn skip_verify link
  generate_anytls_link node = and_result (needed (client_password node.settings)) λ password. ok (
      link "anytls://" (k.encode password) node
        (verify_params node ++ param "alpn=" k.encode (tls_alpn node)))

  unfoldable pub link_of : ProxyNode → Result String
  unfolding generate_vless_link generate_hysteria2_link generate_anytls_link
  link_of node = elim node.protocol [
    | vless_reality ↦ generate_vless_link node
    | vless_xhttp ↦ generate_vless_link node
    | hysteria2 ↦ generate_hysteria2_link node
    | anytls ↦ generate_anytls_link node
  ]

  -- One node without credentials is an error of the whole subscription.
  unfoldable pub generate : List ProxyNode → Result String
  unfolding link_of
  generate nodes =
      and_result (collect_results link_of nodes) λ links. ok (k.encode_base64 (join "\n" links))
