-- ===== src/Subscription/Tests.antt =====
-- Runs of the subscriptions.
use multi_proxy_panel.Prelude.{
  ◌≡◌, refl, str_eq, true, false, [], ◌∷◌, none, some, pos, All, if◌then◌else◌, ◌==◌,
}
use multi_proxy_panel.Prelude.Text.Replace.{replace_from, replace, lines}
use multi_proxy_panel.Db.{ok, Conn, ◌>>=◌}
use multi_proxy_panel.Hub.{active}
use multi_proxy_panel.Protocol.{hysteria2, vless_xhttp}
use multi_proxy_panel.Json.{text, null, json_object, json_array}
use multi_proxy_panel.ConfigGen.{Uuids, NodeBinding, ProtocolConfig}
use multi_proxy_panel.Subscription.{ProxyNode, Crates, parse_format, clash}
use multi_proxy_panel.Subscription.SingBox as SingBox
use multi_proxy_panel.Subscription.Links as Links
use multi_proxy_panel.Subscription.Clash.Template as Template
use multi_proxy_panel.Subscription.Serve.{content, serve_subscription}
use multi_proxy_panel.Subscription.Nodes.{Client, Tables, inject_client_credentials, serves}
use multi_proxy_panel.Subscription.Nodes.Remark.{Shown}
use multi_proxy_panel.Subscription.Nodes.Build.{build_proxy_nodes}
use multi_proxy_panel.Subscription.Nodes.Shared.{IsServed, build_proxy_nodes-IsServed}
use multi_proxy_panel.Json.{Value, number, boolean}

replace_test : replace "a-b--c" "-" "+" ≡ "a+b++c"
unfolding replace_from
replace_test = refl

lines_test : lines "a\r\nb\n" ≡ "a" ∷ "b" ∷ []
unfolding lines
lines_test = refl

parse_format_test : parse_format "CLASH" ≡ some clash
unfolding parse_format
parse_format_test = refl

splice_test : SingBox.splice_placeholder "[\"<X>\", 1]" "\"<X>\"" "" ≡ "[1]"
unfolding SingBox.splice_placeholder
splice_test = refl

placeholder_test :
    Template.replace_yaml_placeholder "proxies:\n  <P>\n" "<P>" "- a\n- b\n"
    ≡ ok "proxies:\n  - a\n  - b\n"
unfolding Template.replace_yaml_placeholder
placeholder_test = refl

abbrev plain : Crates
plain = record {
  to_json = λ v. "";
  to_json_pretty = λ v. "";
  from_json = λ s. none;
  to_yaml = λ v. some "";
  from_yaml = λ s. some null;
  encode_base64 = λ s. s;
  encode = λ s. s;
  valid_singbox_config = λ v. true;
}

abbrev tokyo : ProxyNode
tokyo = record {
  name = "tokyo";
  protocol = hysteria2;
  server = "a.example";
  port = 443;
  settings = json_object (("password", text "pw") ∷ []);
  tls = none;
}

link_test :
    Links.generate plain (tokyo ∷ [])
    ≡ ok "hysteria2://pw@a.example:443?sni=a.example&insecure=1&alpn=h3#tokyo"
unfolding Links.generate
link_test = refl

skipped_test : SingBox.generate plain (record tokyo { protocol = vless_xhttp } ∷ []) none ≡ ok ""
unfolding SingBox.generate
skipped_test = refl

abbrev ids : Uuids
ids = record {
  to_text = λ n. if n == 1 then "1" else "2";
  parse_str = λ s. if str_eq s "1" then some 1 else none;
}

abbrev ann : Client
ann = record {
  id = 1;
  name = "ann";
  email = none;
  max_devices = none;
  status = active;
  traffic_used_bytes = pos 0;
  traffic_limit_bytes = pos 0;
  expiry_date = none;
}

abbrev stored : Value
stored =
    json_object (("clients", json_array (json_object (("password", text "bob") ∷ []) ∷ [])) ∷ [])

abbrev shared : ProxyNode
shared = record tokyo { settings = inject_client_credentials ids ann "hysteria2" stored }

-- Ann's outbound has Bob's password.
abbrev shared_outbound : Value
shared_outbound = json_object (
    ("type", text "hysteria2")
    ∷ ("tag", text "tokyo")
    ∷ ("server", text "a.example")
    ∷ ("server_port", number 443)
    ∷ ("password", text "bob")
    ∷ (
      "tls",
      json_object (
          ("enabled", boolean true)
          ∷ ("server_name", text "")
          ∷ ("insecure", boolean true)
          ∷ ("alpn", json_array (text "h3" ∷ []))
          ∷ []),
    )
    ∷ [])

abbrev binding : NodeBinding
binding = record {
  id = 5;
  node_id = 7;
  protocol_config_id = 6;
  override_settings = none;
  is_active = true;
}

abbrev hysteria : ProtocolConfig
hysteria = record {
  id = 6;
  name = "hy";
  protocol_type = "hysteria2";
  core_type = "sing-box";
  listen_port = pos 443;
  listen_address = "::";
  settings = json_object [];
  tls_settings = none;
}

abbrev tables : Tables
tables = record {
  clients = ann ∷ [];
  subscriptions =
      record { id = 9; client_id = 1; token = "t"; is_active = true; last_accessed_at = none } ∷ [];
  templates = [];
  bindings = binding ∷ record binding { id = 8 } ∷ [];
  configs = hysteria ∷ [];
  nodes = record { id = 7; name = "n"; address = "1.2.3.4"; domain = none; parent_id = none } ∷ [];
  hosts = [];
  certificates = [];
  groups = [];
  binding_groups = record { node_binding_id = 5; group_id = 3 } ∷ [];
  client_groups = record { client_id = 1; group_id = 3 } ∷ [];
}

abbrev shown : Shown
shown = record { days_until = λ t. 0; date = λ t. ""; quotient = λ a b. "" }

abbrev calm : Conn Tables
calm = record {
  tables = tables;
  asked = 0;
  env = record { fails = λ n. false; now = λ n. 0; uuid = λ n. 0 };
}

-- The one node of the first binding.
abbrev listed : ProxyNode
listed = record {
  name = "n-hy";
  protocol = hysteria2;
  server = "1.2.3.4";
  port = 443;
  settings = inject_client_credentials ids ann "hysteria2" (json_object []);
  tls = none;
}

build_proxy_nodes_test : (build_proxy_nodes ids shown ann none calm).0 ≡ ok (listed ∷ [])
unfolding build_proxy_nodes ◌>>=◌
build_proxy_nodes_test = refl

build_proxy_nodes-IsServed_example :
    ((build_proxy_nodes ids shown ann none calm).1.tables ≡ tables)
    × All (IsServed ids shown tables ann none) (listed ∷ [])
    × (serves active ≡ false → listed ∷ [] ≡ [])
build_proxy_nodes-IsServed_example =
    build_proxy_nodes-IsServed ids shown ann none calm (listed ∷ []) build_proxy_nodes_test

-- There is no template for Clash, so the answer is in Base64.
serve_subscription_test :
    (serve_subscription plain ids shown
      (λ t. pos 0)
      "t"
      (record { format = none; template = none; user_agent = some "Clash/1.0" })
      calm).0
    ≡ ok (
        content "text/plain; charset=utf-8"
          "hysteria2://1@1.2.3.4:443?sni=1.2.3.4&insecure=1&alpn=h3#n-hy"
          "upload=0; download=0; total=0; expire=0")
unfolding serve_subscription ◌>>=◌
serve_subscription_test = refl
