-- ===== src/Subscription/Nodes/Build.antt =====
-- `build_proxy_nodes` of crates/pp-hub/src/routes/subscription/generator.rs.
use Prim.Native.String.{◌++◌ as ◌<>◌}
use multi_proxy_panel.Prelude.{
  ℕ, String, Bool, true, false, ◌&&◌, List, [], ◌∷◌, map, Option, none, some, ◌==◌, if◌then◌else◌,
}
use multi_proxy_panel.Db.{Sql, pure, select, ◌>>=◌}
use multi_proxy_panel.Hub.{Uuid}
use multi_proxy_panel.Protocol.{ProtocolType, parse_protocol}
use multi_proxy_panel.Json.{Value, get}
use multi_proxy_panel.Settings.{and_then, merge_tls_settings}
use multi_proxy_panel.ConfigGen.{Uuids, NodeBinding, ProtocolConfig}
use multi_proxy_panel.ConfigGen.RelayRules.{as_u16}
use multi_proxy_panel.Subscription.{ProxyNode}
use multi_proxy_panel.Subscription.Nodes.{
  Client, Node, InboundHost, Tables, one, serves, rule_texts, allowed_group_ids, shares,
  group_allowed, protocol_allowed, address_of, inject_client_credentials, with_host,
  resolve_subscription_tls,
}
use multi_proxy_panel.Subscription.Nodes.Remark.{Shown, substitute_variables}

-- What the loop over the bindings knows.
pub record Filter : Type 0 where
  pub client : Client
  pub client_groups : List Uuid
  pub protocols : List String
  pub groups : List Uuid

unfoldable pub get_client_group_ids : Uuid → Sql Tables (List Uuid)
get_client_group_ids id = do
  ms ← select (λ t. t.client_groups) (λ m. m.client_id == id)
  pure (map (λ m. m.group_id) ms)

unfoldable pub get_binding_group_ids : Uuid → Sql Tables (List Uuid)
get_binding_group_ids id = do
  gs ← select (λ t. t.binding_groups) (λ g. g.node_binding_id == id)
  pure (map (λ g. g.group_id) gs)

abbrev pub of_parent : Node → Option Node → String
of_parent node none = address_of node
of_parent node (some parent) = address_of parent

-- The parent's address, where there is one.
unfoldable pub relayed_address : Node → Option Uuid → Sql Tables String
relayed_address node none = pure (address_of node)
relayed_address node (some id) = do
  parent ← one (λ t. t.nodes) (λ n. n.id == id)
  pure (of_parent node parent)

unfoldable pub effective_server :
    Option InboundHost → ProtocolConfig → Node → Sql Tables (String × ℕ)
unfolding relayed_address
effective_server (some h) cfg node = pure (h.address, as_u16 h.port)
effective_server none cfg node = do
  server ← relayed_address node node.parent_id
  pure (server, as_u16 cfg.listen_port)

abbrev pub display_name : Shown → Option InboundHost → Client → ProtocolConfig → Node → String
display_name w none client cfg node = node.name <> ("-" <> cfg.name)
display_name w (some h) client cfg node = substitute_variables w h.remark client cfg node

-- A client or a binding without groups shares none.
abbrev pub admitted : Filter → List Uuid → Bool
admitted f gs = shares gs f.client_groups && group_allowed f.groups gs

abbrev pub kept : {A : Type 0} → Bool → Sql Tables A → Sql Tables (Option A)
kept false m = pure none
kept true m = m >>= λ a. pure (some a)

abbrev pub onto : Option ProxyNode → List ProxyNode → List ProxyNode
onto none rest = rest
onto (some n) rest = n ∷ rest

module _ (u : Uuids) (w : Shown) where
  -- The loop's body behind its tests.
  unfoldable pub node_of :
      Client → NodeBinding → ProtocolConfig → Node → ProtocolType → Sql Tables ProxyNode
  unfolding inject_client_credentials effective_server with_host resolve_subscription_tls
      merge_tls_settings substitute_variables
  node_of client binding cfg node protocol = do
    host ←
        one (λ t. t.hosts)
          (λ h. h.protocol_config_id == cfg.id && h.node_id == node.id && h.is_active)
    address ← effective_server host cfg node
    tls ← resolve_subscription_tls u binding.node_id (
        merge_tls_settings cfg.tls_settings
          (and_then binding.override_settings (get "tls_settings")))
    pure (record {
      name = display_name w host client cfg node;
      protocol = protocol;
      server = address.0;
      port = address.1;
      settings = with_host host (inject_client_credentials u client cfg.protocol_type cfg.settings);
      tls = tls;
    })

  -- `continue` is none.
  unfoldable pub admitted_node :
      Filter
      → NodeBinding
      → ProtocolConfig
      → Node
      → Option ProtocolType
      → Sql Tables (Option ProxyNode)
  unfolding node_of get_binding_group_ids
  admitted_node f binding cfg node none = pure none
  admitted_node f binding cfg node (some protocol) = elim (protocol_allowed f.protocols protocol) [
    | false ↦ pure none
    | true ↦ get_binding_group_ids binding.id >>= λ gs.
        kept (admitted f gs) (node_of f.client binding cfg node protocol)
  ]

  unfoldable pub row_node :
      Filter → NodeBinding → Option ProtocolConfig → Option Node → Sql Tables (Option ProxyNode)
  unfolding admitted_node parse_protocol
  row_node f binding (some cfg) (some node) =
      admitted_node f binding cfg node (parse_protocol cfg.protocol_type)
  row_node f binding _ _ = pure none

  unfoldable pub nodes_loop : Filter → List NodeBinding → Sql Tables (List ProxyNode)
  unfolding row_node
  nodes_loop f [] = pure []
  nodes_loop f (b ∷ bs) = do
    cfg ← one (λ t. t.configs) (λ c. c.id == b.protocol_config_id)
    node ← one (λ t. t.nodes) (λ n. n.id == b.node_id)
    made ← row_node f b cfg node
    rest ← nodes_loop f bs
    pure (onto made rest)

  unfoldable pub served_nodes : Client → Option Value → Sql Tables (List ProxyNode)
  unfolding nodes_loop get_client_group_ids rule_texts allowed_group_ids
  served_nodes client rules = do
    client_groups ← get_client_group_ids client.id
    groups ← allowed_group_ids (rule_texts "node_groups" rules)
    bindings ← select (λ t. t.bindings) (λ b. b.is_active)
    nodes_loop
        (record {
          client = client;
          client_groups = client_groups;
          protocols = rule_texts "protocols" rules;
          groups = groups;
        })
        bindings

  unfoldable pub build_proxy_nodes : Client → Option Value → Sql Tables (List ProxyNode)
  unfolding served_nodes
  build_proxy_nodes client rules =
      if serves client.status then served_nodes client rules else pure []
