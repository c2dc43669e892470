-- ===== src/ConfigGen/Node.antt =====
-- The config of a node: `generate_node_config` of
-- crates/pp-hub/src/service/protocol/config_gen.rs.
pub mod Bound
pub mod Generated
use Prim.Native.String.{◌++◌ as ◌<>◌}
use multi_proxy_panel.Prelude.{
  ℕ, String, str_eq, Bool, true, false, ◌&&◌, List, [], ◌∷◌, Option, none, some, ◌==◌,
  if◌then◌else◌,
}
use multi_proxy_panel.Db.{
  PanelError, config, Result, ok, err, Conn, Sql, pure, lift, raise, statement, select, ◌>>=◌, ◌>>◌,
}
use multi_proxy_panel.Hub.{Uuid}
use multi_proxy_panel.Json.{
  Value, text, object, Fields, no_fields, field, get, put, put_field, is_object,
}
use multi_proxy_panel.Settings.{and_then, merge_tls_settings}
use multi_proxy_panel.Protocol.{CoreType, sing_box, mihomo, same_core, ProtocolType}
use multi_proxy_panel.Builder.{InboundConfig, Built}
use multi_proxy_panel.Builder.SingBox.Full as Full
use multi_proxy_panel.Builder.Mihomo as Mihomo
use multi_proxy_panel.ConfigGen.{
  Tables, Uuids, NodeBinding, ProtocolConfig, one, present, parse_core_type, parse_protocol_type,
  int_value, inject_binding_clients, resolve_managed_cert_tls,
}
use multi_proxy_panel.ConfigGen.RelayRules.{as_u16, from_built, apply_relay_rules}

-- The override settings one by one, all but tls_settings.
unfoldable pub merge_overrides : Fields → Value → Value
unfolding put
merge_overrides no_fields settings = settings
merge_overrides (field k v fs) settings =
    merge_overrides fs (if str_eq k "tls_settings" then settings else put k v settings)

abbrev with_overrides : Option Value → Value → Value
with_overrides (some (object over)) settings = merge_overrides over settings
with_overrides _ settings = settings

module _ (u : Uuids) where
  abbrev pub inbound_tag : ProtocolConfig → String
  inbound_tag cfg = cfg.name <> ("-" <> u.to_text cfg.id)

  -- Port, address and tag stand in the settings too.
  unfoldable pub with_endpoint : ProtocolConfig → Value → Value
  unfolding put
  with_endpoint cfg settings =
      put "tag" (text (inbound_tag cfg))
        (put "listen" (text cfg.listen_address) (put "port" (int_value cfg.listen_port) settings))

  -- The loop's body behind the check of the core.
  unfoldable pub inbound_of_config :
      Uuid → Option String → NodeBinding → ProtocolConfig → Sql Tables InboundConfig
  unfolding merge_overrides inject_binding_clients with_endpoint resolve_managed_cert_tls
      merge_tls_settings parse_protocol_type
  inbound_of_config node_id version binding cfg = do
    protocol ← lift (parse_protocol_type cfg.protocol_type)
    settings ←
        inject_binding_clients u binding cfg.protocol_type
          (with_overrides binding.override_settings cfg.settings)
    tls ← resolve_managed_cert_tls u node_id (
        merge_tls_settings cfg.tls_settings
          (and_then binding.override_settings (get "tls_settings")))
    pure (record {
      tag = inbound_tag cfg;
      protocol = protocol;
      listen = cfg.listen_address;
      port = as_u16 cfg.listen_port;
      settings = with_endpoint cfg settings;
      tls = tls;
      core_version = version;
    })

  abbrev onto : List InboundConfig → InboundConfig → Sql Tables (List InboundConfig)
  onto rest i = pure (i ∷ rest)

  -- The inbounds behind the first, or all.
  unfoldable pub inbounds_for :
      Uuid → CoreType → Option String → List NodeBinding → Sql Tables (List InboundConfig)
  unfolding parse_core_type inbound_of_config
  inbounds_for node_id core version [] = pure []
  inbounds_for node_id core version (b ∷ bs) = do
    row ← one (λ t. t.configs) (λ c. c.id == b.protocol_config_id)
    cfg ← lift (present row)
    (elim (same_core (parse_core_type cfg.core_type) core) [
      | false ↦ inbounds_for node_id core version bs
      | true ↦ (do
        i ← inbound_of_config node_id version b cfg
        rest ← inbounds_for node_id core version bs
        pure (i ∷ rest))
    ])

  abbrev pub schema_checked : (Value → Bool) → CoreType → Value → Result Value
  schema_checked valid mihomo c = ok c
  schema_checked valid sing_box c = if valid c then ok c else err config

  -- `effective` is effective_core_version, `valid` the check against the JSON schema and `var` the
  -- environment.
  module _ (effective : CoreType → Sql Tables (Option String)) (valid : Value → Bool)
      (var : String → Option String) where
    abbrev pub build_for : CoreType → List InboundConfig → Built Value
    build_for sing_box is = Full.build_full_config var is
    build_for mihomo is = Mihomo.build_full_config var is

    unfoldable pub generate_node_config : Uuid → CoreType → Sql Tables (Value × Option String)
    unfolding inbounds_for apply_relay_rules
    generate_node_config node_id core = do
      version ← effective core
      bindings ← select (λ t. t.bindings) (λ b. b.node_id == node_id && b.is_active)
      inbounds ← inbounds_for node_id core version bindings
      built ← lift (from_built (build_for core inbounds))
      routed ← apply_relay_rules u node_id core built
      checked ← lift (schema_checked valid core routed)
      pure (checked, version)
