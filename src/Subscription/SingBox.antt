-- ===== src/Subscription/SingBox.antt =====
-- The subscription for sing-box: crates/pp-subscription/src/formats/singbox.rs.
use Prim.Native.String.{◌++◌ as ◌<>◌}
use multi_proxy_panel.Prelude.{
  String, str_eq, Bool, true, false, ◌||◌, List, [], ◌∷◌, ◌++◌, map, Option, none, some,
  if◌then◌else◌, unwrap_or, retain,
}
use multi_proxy_panel.Prelude.Text.{contains, is_empty, trim}
use multi_proxy_panel.Prelude.Text.Replace.{replace_from, replace, join}
use multi_proxy_panel.Db.{internal, subscription, Result, ok, err}
use multi_proxy_panel.Protocol.{ProtocolType, vless_reality, vless_xhttp, hysteria2, anytls}
use multi_proxy_panel.Json.{
  Value, boolean, number, null, text, object, get, as_u64, as_array, get_str, str_or, json_array,
  json_object, put, to_list,
}
use multi_proxy_panel.Settings.{
  or_else, first_server_name, first_short_id, client_uuid, client_password,
}
use multi_proxy_panel.Subscription.{
  ProxyNode, Crates, and_result, needed, collect_results, tls_str, skip_verify, reality_key,
}

abbrev pub is_supported : ProtocolType → Bool
is_supported vless_xhttp = false
is_supported _ = true

-- `if let Some(v) = … { outbound[k] = json!(v) }`
abbrev pub put_some : {A : Type 0} → (A → Value) → String → Option A → Value → Value
put_some f k none o = o
put_some f k (some v) o = put k (f v) o

abbrev put_text : String → String → Value → Value
put_text k s o = if is_empty s then o else put k (text s) o

abbrev node_base : String → ProxyNode → List (String × Value) → Value
node_base kind node more = json_object (
    ("type", text kind)
    ∷ ("tag", text node.name)
    ∷ ("server", text node.server)
    ∷ ("server_port", number node.port)
    ∷ more)

unfoldable pub transport_value : String → Value → Value
unfolding put get_str
transport_value network settings =
    put_some text "host" (get_str "host" settings)
      (put_some text "path" (get_str "path" settings) (json_object (("type", text network) ∷ [])))

unfoldable pub with_network : String → Value → Value → Value
unfolding transport_value
with_network network settings outbound =
    if str_eq network "tcp"
    then outbound
    else put "transport" (transport_value network settings) outbound

unfoldable pub reality_tls : Value → String → Value
unfolding put get_str is_empty first_server_name first_short_id
reality_tls settings public_key = json_object (
    ("enabled", boolean true)
    ∷ ("server_name", text (unwrap_or (first_server_name settings) ""))
    ∷ (
      "utls",
      json_object (
          ("enabled", boolean true)
          ∷ ("fingerprint", text (str_or "fingerprint" "chrome" settings))
          ∷ []),
    )
    ∷ (
      "reality",
      put_text "spider_x" (str_or "spider_x" "" settings) (
          json_object (
            ("enabled", boolean true)
            ∷ ("public_key", text public_key)
            ∷ ("short_id", text (unwrap_or (first_short_id settings) ""))
            ∷ [])),
    )
    ∷ [])

unfoldable pub build_vless_reality_outbound : ProxyNode → Result Value
unfolding client_uuid with_network reality_key reality_tls
build_vless_reality_outbound node = and_result (needed (client_uuid node.settings)) λ uuid.
    and_result (reality_key node.settings) λ public_key. ok (
      put "tls" (reality_tls node.settings public_key) (
        with_network (str_or "network" "tcp" node.settings) node.settings (
          put_text "flow" (str_or "flow" "" node.settings) (
            node_base "vless" node (("uuid", text uuid) ∷ ("packet_encoding", text "xudp") ∷ [])))))

unfoldable pub server_name_of : ProxyNode → String
unfolding get_str
server_name_of node =
    unwrap_or (or_else (tls_str "serverName" node) (get_str "sni" node.settings)) ""

abbrev obfs_for : String → Option String → Option Value
obfs_for kind none = none
obfs_for kind (some password) =
    if str_eq kind "none"
    then none
    else some (json_object (("type", text kind) ∷ ("password", text password) ∷ []))

abbrev pub obfs_value : Option String → Option String → Option Value
obfs_value none password = none
obfs_value (some kind) password = obfs_for kind password

abbrev pub hysteria2_base : ProxyNode → String → Value
hysteria2_base node password = node_base "hysteria2" node (
    ("password", text password)
    ∷ (
      "tls",
      json_object (
          ("enabled", boolean true)
          ∷ ("server_name", text (server_name_of node))
          ∷ ("insecure", boolean (skip_verify node))
          ∷ ("alpn", json_array (text "h3" ∷ []))
          ∷ []),
    )
    ∷ [])

unfoldable pub build_hysteria2_outbound : ProxyNode → Result Value
unfolding client_password server_name_of skip_verify get_str
build_hysteria2_outbound node = and_result (needed (client_password node.settings)) λ password.
    let s = node.settings in
    ok (
      put_some (λ v. v) "obfs" (obfs_value (get_str "obfs_type" s) (get_str "obfs_password" s))
        (put_some number "down_mbps" (as_u64 (get "down_mbps" s))
          (put_some number "up_mbps" (as_u64 (get "up_mbps" s)) (hysteria2_base node password))))

unfoldable pub build_anytls_outbound : ProxyNode → Result Value
unfolding client_password server_name_of skip_verify
build_anytls_outbound node = and_result (needed (client_password node.settings)) λ password. ok (
    node_base "anytls" node (
      ("password", text password)
      ∷ (
        "tls",
        json_object (
            ("enabled", boolean true)
            ∷ ("server_name", text (server_name_of node))
            ∷ ("insecure", boolean (skip_verify node))
            ∷ []),
      )
      ∷ []))

unfoldable pub build_outbound : ProxyNode → Result Value
unfolding build_vless_reality_outbound build_hysteria2_outbound build_anytls_outbound
build_outbound node = elim node.protocol [
  | vless_reality ↦ build_vless_reality_outbound node
  | hysteria2 ↦ build_hysteria2_outbound node
  | anytls ↦ build_anytls_outbound node
  | vless_xhttp ↦ err subscription
]

abbrev without : String → String → String
without t s = replace s t ""

-- A placeholder with nothing to put there goes with the comma next to it.
unfoldable pub splice_placeholder : String → String → String → String
unfolding trim is_empty replace_from
splice_placeholder template marker inner =
    if is_empty (trim inner)
    then replace
        (without ("," <> marker)
          (without (", " <> marker) (without (marker <> ",") (without (marker <> ", ") template))))
        marker "null"
    else replace template marker inner

module _ (k : Crates) where
  -- The elements of an array as JSON, without its brackets.
  abbrev elements : List Value → String
  elements vs = join "," (map k.to_json vs)

  unfoldable pub render_template : String → List Value → List String → Result Value
  unfolding splice_placeholder
  render_template base outbounds names =
      let a = splice_placeholder base "\"<OUTBOUND_REPLACE>\"" (elements outbounds) in
      let b = splice_placeholder a "\"<NODE_REPLACE>\"" (elements (map text names)) in
      needed (k.from_json b)

  abbrev checked : Value → Result String
  checked config =
      if k.valid_singbox_config config then ok (k.to_json_pretty config) else err subscription

  -- `config["outbounds"] = …`: the code panics where the config is neither a map nor null.
  abbrev set_outbounds : List Value → Value → Result Value
  set_outbounds vs (object fs) = ok (put "outbounds" (json_array vs) (object fs))
  set_outbounds vs null = ok (json_object (("outbounds", json_array vs) ∷ []))
  set_outbounds vs _ = err internal

  unfoldable pub append_outbounds : List Value → Value → Result Value
  unfolding put get
  append_outbounds vs config = elim (as_array (get "outbounds" config)) [
    | some old ↦ ok (put "outbounds" (json_array (to_list old ++ vs)) config)
    | none ↦ set_outbounds vs config
  ]

  abbrev or_direct : List Value → List Value
  or_direct [] = json_object (("type", text "direct") ∷ ("tag", text "direct") ∷ []) ∷ []
  or_direct (v ∷ vs) = v ∷ vs

  unfoldable pub render : Option String → List Value → List String → Result String
  unfolding append_outbounds render_template
  render none outbounds names =
      checked (json_object (("outbounds", json_array (or_direct outbounds)) ∷ []))
  render (some base) outbounds names =
      if contains base "<OUTBOUND_REPLACE>" || contains base "<NODE_REPLACE>"
      then and_result (render_template base outbounds names) checked
      else and_result (needed (k.from_json base))
          λ config. and_result (append_outbounds outbounds config) checked

  unfoldable pub generate : List ProxyNode → Option String → Result String
  unfolding build_outbound render
  generate nodes base =
      let supported = retain (λ n. is_supported n.protocol) nodes in
      and_result (collect_results build_outbound supported)
        λ outbounds. render base outbounds (map (λ n. n.name) supported)
