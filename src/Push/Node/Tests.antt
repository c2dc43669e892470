-- ===== src/Push/Node/Tests.antt =====
-- Runs of the port check.
use multi_proxy_panel.Prelude.{◌≡◌, refl, String, true, [], ◌∷◌, none, pos, ◌&&◌, ◌==◌, retain}
use multi_proxy_panel.Db.{ok, err, validation, Conn, ◌>>=◌}
use multi_proxy_panel.Hub.{Hub, Uuid, NodeBinding, ProtocolConfig}
use multi_proxy_panel.Hub.Samples.{sample_hub, calm, connect}
use multi_proxy_panel.Push.{parse_core_type}
use multi_proxy_panel.Push.Node.{endpoint, next_ports, ports_loop, validate_node_port_conflicts}
use multi_proxy_panel.Push.Node.Ports.{claimed, Apart, validate_node_port_conflicts-Apart}

abbrev config : Uuid → String → ProtocolConfig
config id core = record {
  id = id;
  name = "in";
  core_type = core;
  listen_address = "::";
  listen_port = pos 443;
}

abbrev binding : Uuid → Uuid → NodeBinding
binding id config_ = record {
  id = id;
  node_id = 9;
  protocol_config_id = config_;
  is_active = true;
  override_address = none;
  override_port = none;
}

-- A sing-box inbound and a mihomo inbound on one address and port.
abbrev two_cores : Conn Hub
two_cores = connect (calm 7) (record (sample_hub []) {
  configs = config 1 "sing-box" ∷ config 2 "mihomo" ∷ [];
  bindings = binding 11 1 ∷ binding 12 2 ∷ [];
})

abbrev one_core : Conn Hub
one_core = connect (calm 7) (record (sample_hub []) {
  configs = config 1 "mihomo" ∷ config 2 "mihomo" ∷ [];
  bindings = binding 11 1 ∷ binding 12 2 ∷ [];
})

two_cores_pass : (validate_node_port_conflicts 9 two_cores).0 ≡ ok tt
unfolding validate_node_port_conflicts ◌>>=◌ ports_loop next_ports endpoint parse_core_type
two_cores_pass = refl

one_core_conflict : (validate_node_port_conflicts 9 one_core).0 ≡ err validation
unfolding validate_node_port_conflicts ◌>>=◌ ports_loop next_ports endpoint parse_core_type
one_core_conflict = refl

validate_node_port_conflicts-Apart_example : Apart (
    claimed two_cores.tables.configs
      (retain (λ b. b.node_id == 9 && b.is_active) two_cores.tables.bindings))
validate_node_port_conflicts-Apart_example =
    validate_node_port_conflicts-Apart 9 two_cores two_cores_pass
