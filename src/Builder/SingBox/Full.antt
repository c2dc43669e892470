-- ===== src/Builder/SingBox/Full.antt =====
-- The whole config of sing-box: crates/pp-config/src/singbox.rs.
use multi_proxy_panel.Prelude.{
  String, Bool, true, false, List, [], ◌∷◌, Option, none, some, if◌then◌else◌, unwrap_or, ℕ, leb,
}
use multi_proxy_panel.Prelude.Text.{is_empty, parse_u64, rsplit_once}
use multi_proxy_panel.Protocol.{ProtocolType, vless_reality, vless_xhttp, hysteria2, anytls}
use multi_proxy_panel.Json.{Value, boolean, number, text, json_array, json_object, put}
use multi_proxy_panel.Settings.{or_else}
use multi_proxy_panel.Builder.{InboundConfig, Built, built, and_build, collect_inbounds}
use multi_proxy_panel.Builder.CoreVersion.{effective_singbox_version, version_gte}
use multi_proxy_panel.Builder.SingBox.{build_inbound, inbound_of}

abbrev pub skippable : ProtocolType → Bool
skippable hysteria2 = true
skippable anytls = true
skippable vless_reality = false
skippable vless_xhttp = false

abbrev pub build_singbox_route : Value
build_singbox_route = json_object (
    ("auto_detect_interface", boolean true)
    ∷ (
      "rules",
      json_array
          (json_object (("protocol", text "bittorrent") ∷ ("outbound", text "block") ∷ []) ∷ []),
    )
    ∷ [])

-- `port.parse::<u16>().unwrap_or(9090)`
abbrev port_of : Option ℕ → ℕ
port_of none = 9090
port_of (some n) = if leb n 65535 then n else 9090

abbrev listen_parts : String → Option (String × String) → String × ℕ
listen_parts listen none = (listen, 9090)
listen_parts listen (some (addr, port)) = (addr, port_of (parse_u64 port))

unfoldable pub split_listen_addr : String → String × ℕ
unfolding rsplit_once parse_u64
split_listen_addr listen = listen_parts listen (rsplit_once b':' listen)

-- `value["secret"] = …`, where there is a secret.
abbrev with_secret : String → Value → Value
with_secret secret v = if is_empty secret then v else put "secret" (text secret) v

-- Variables of the environment.
module _ (var : String → Option String) where
  unfoldable pub singbox_api_listen : String
  singbox_api_listen =
      unwrap_or
        (or_else (var "PROXYPANEL_SINGBOX_API_LISTEN") (var "PROXYPANEL_SINGBOX_HTTP_API_LISTEN"))
        "127.0.0.1:9090"

  unfoldable pub singbox_api_secret : String
  singbox_api_secret = unwrap_or (var "PROXYPANEL_SINGBOX_API_SECRET") ""

  unfoldable pub build_api_service : Value
  unfolding split_listen_addr singbox_api_listen singbox_api_secret put is_empty
  build_api_service =
      let (addr, port) = split_listen_addr singbox_api_listen in
      json_array (
        with_secret singbox_api_secret (
          json_object
            (("type", text "api") ∷ ("listen", text addr) ∷ ("listen_port", number port) ∷ []))
        ∷ [])

  abbrev clash_api : String → Value
  clash_api listen = json_object (
      (
        "clash_api",
        with_secret singbox_api_secret (json_object (("external_controller", text listen) ∷ [])),
      )
      ∷ [])

  unfoldable pub build_clash_api_experimental : Value
  unfolding singbox_api_secret put is_empty
  build_clash_api_experimental =
      clash_api (unwrap_or (var "PROXYPANEL_SINGBOX_CLASH_API_LISTEN") "127.0.0.1:9091")

  unfoldable pub build_legacy_api_services : Value
  unfolding singbox_api_listen singbox_api_secret put is_empty
  build_legacy_api_services = clash_api singbox_api_listen

  abbrev base_config : List Value → Value
  base_config inbounds = json_object (
      ("log", json_object (("level", text "warning") ∷ ("timestamp", boolean true) ∷ []))
      ∷ ("inbounds", json_array inbounds)
      ∷ (
        "outbounds",
        json_array (
            json_object (("type", text "direct") ∷ ("tag", text "direct") ∷ [])
            ∷ json_object (("type", text "block") ∷ ("tag", text "block") ∷ [])
            ∷ []),
      )
      ∷ ("route", build_singbox_route)
      ∷ [])

  -- The api service is one object, so it is never left out.
  unfoldable pub with_api : String → Value → Value
  unfolding version_gte build_api_service build_clash_api_experimental build_legacy_api_services put
  with_api version config =
      if version_gte version "1.14.0"
      then put "experimental" build_clash_api_experimental (put "services" build_api_service config)
      else put "experimental" build_legacy_api_services config

  unfoldable pub build_full_config : List InboundConfig → Built Value
  unfolding build_inbound collect_inbounds effective_singbox_version with_api
  build_full_config inbounds =
      and_build (collect_inbounds inbound_of skippable inbounds)
        (λ vs. built (with_api (effective_singbox_version inbounds) (base_config vs)))
