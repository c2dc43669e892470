-- ===== src/Subscription/Nodes/Reads.antt =====
-- What the questions of a subscription answer, and what its nodes are made of; none of them writes.
use multi_proxy_panel.Prelude.{
  ◌≡◌, refl, ap, ◌∙◌, fun_ext, ℕ, find, String, Bool, ◌&&◌, List, [], ◌∷◌, map, any, Option, none,
  some, ◌==◌, retain,
}
use multi_proxy_panel.Db.Runs.{
  Pred, Runs, Anything, Runs-pure, Runs-read, Runs-bind, Runs-weaken, Runs-given,
}
use multi_proxy_panel.Hub.{Uuid}
use multi_proxy_panel.Protocol.{ProtocolType}
use multi_proxy_panel.Json.{Value, get, get_str}
use multi_proxy_panel.ConfigGen.{Uuids, NodeBinding, ProtocolConfig, Certificate, member_of}
use multi_proxy_panel.ConfigGen.RelayRules.{as_u16}
use multi_proxy_panel.Settings.{and_then, merge_tls_settings}
use multi_proxy_panel.Subscription.{ProxyNode}
use multi_proxy_panel.ConfigGen.Clients.{any-map-retain}
use multi_proxy_panel.Subscription.Nodes.{
  Client, Node, InboundHost, Tables, allowed_group_ids, shares, find_certificate,
  resolve_subscription_tls, resolved_with, address_of, with_host, inject_client_credentials,
}
use multi_proxy_panel.Subscription.Nodes.Remark.{Shown}
use multi_proxy_panel.Subscription.Nodes.Build.{
  get_client_group_ids, get_binding_group_ids, relayed_address, effective_server, node_of,
  of_parent, display_name,
}

-- Some group has both the binding and the client.
abbrev pub shares_group : Tables → Client → NodeBinding → Bool
shares_group t c b =
    any
      (λ g.
        g.node_binding_id == b.id
        && any (λ m. m.client_id == c.id && m.group_id == g.group_id) t.client_groups)
      t.binding_groups

abbrev pub groups_of : Tables → NodeBinding → List Uuid
groups_of t b = map (λ g. g.group_id) (retain (λ g. g.node_binding_id == b.id) t.binding_groups)

abbrev pub groups_of_client : Tables → Client → List Uuid
groups_of_client t c = map (λ m. m.group_id) (retain (λ m. m.client_id == c.id) t.client_groups)

pub shares-group :
    (t : Tables) (c : Client) (b : NodeBinding)
    → shares (groups_of t b) (groups_of_client t c) ≡ shares_group t c b
shares-group t c b =
    any-map-retain (λ g. member_of (groups_of_client t c) g) (λ g. g.group_id)
      (λ g. g.node_binding_id == b.id) t.binding_groups
    ∙ ap (λ f. any f t.binding_groups)
        (fun_ext λ g.
          ap (λ x. g.node_binding_id == b.id && x)
            (any-map-retain (λ i. i == g.group_id) (λ m. m.group_id) (λ m. m.client_id == c.id)
              t.client_groups))

-- The override of the address for this config on this node.
abbrev pub host_in : Tables → ProtocolConfig → Node → Option InboundHost
host_in t cfg node =
    find (λ h. h.protocol_config_id == cfg.id && h.node_id == node.id && h.is_active) t.hosts

-- A node behind a parent is reached at the parent.
abbrev pub address_in : Tables → Node → Option Uuid → String
address_in t node none = address_of node
address_in t node (some id) = of_parent node (find (λ n. n.id == id) t.nodes)

abbrev pub endpoint_in : Tables → Option InboundHost → ProtocolConfig → Node → String × ℕ
endpoint_in t (some h) cfg node = (h.address, as_u16 h.port)
endpoint_in t none cfg node = (address_in t node node.parent_id, as_u16 cfg.listen_port)

abbrev pub certificate_in : Tables → Option Uuid → Option Certificate
certificate_in t none = none
certificate_in t (some id) = find (λ c. c.id == id) t.certificates

abbrev pub tls_in : Uuids → Tables → Uuid → Option Value → Option Value
tls_in u t node_id none = none
tls_in u t node_id (some tls) =
    some
      (resolved_with node_id tls (certificate_in t (and_then (get_str "cert_id" tls) u.parse_str)))

-- Name, address, settings and TLS settings are those of this binding, config and node.
abbrev pub IsOf :
    Uuids → Shown → Tables → Client → NodeBinding → ProtocolConfig → Node → ProxyNode → Type 0
IsOf u w t c b cfg node n =
    (n.name ≡ display_name w (host_in t cfg node) c cfg node)
    × (◌≡◌ {A = String × ℕ} (n.server, n.port) (endpoint_in t (host_in t cfg node) cfg node))
    × (n.settings
        ≡ with_host (host_in t cfg node)
            (inject_client_credentials u c cfg.protocol_type cfg.settings))
    × (n.tls
        ≡ tls_in u t b.node_id (
            merge_tls_settings cfg.tls_settings
              (and_then b.override_settings (get "tls_settings"))))

-- The tables are these.
abbrev pub Unwritten : Tables → Pred Tables
Unwritten t₀ e t = t ≡ t₀

module _ (u : Uuids) (w : Shown) (t₀ : Tables) where
  pub group_ids-Unwritten :
      (b : NodeBinding)
      → Runs
          (Unwritten t₀)
          (get_binding_group_ids b.id)
          (λ gs e t. (t ≡ t₀) × (gs ≡ groups_of t₀ b))
          Anything
  unfolding get_binding_group_ids
  group_ids-Unwritten b = Runs-bind _ _ (Runs-read t₀ _) λ gs.
      Runs-weaken _ (Runs-pure _) (λ e t p. (p.0, ap (map (λ g. g.group_id)) p.1)) (λ a e t p. p)

  pub client_ids-Unwritten :
      (c : Client)
      → Runs
          (Unwritten t₀)
          (get_client_group_ids c.id)
          (λ gs e t. (t ≡ t₀) × (gs ≡ groups_of_client t₀ c))
          Anything
  unfolding get_client_group_ids
  client_ids-Unwritten c = Runs-bind _ _ (Runs-read t₀ _) λ gs.
      Runs-weaken _ (Runs-pure _) (λ e t p. (p.0, ap (map (λ m. m.group_id)) p.1)) (λ a e t p. p)

  pub allowed_ids-Unwritten :
      (ns : List String)
      → Runs (Unwritten t₀) (allowed_group_ids ns) (λ gs. (Unwritten t₀)) Anything
  unfolding allowed_group_ids
  allowed_ids-Unwritten [] = Runs-pure []
  allowed_ids-Unwritten (n ∷ ns) =
      Runs-bind _ _ (Runs-read t₀ _) λ gs. Runs-given _ λ p. Runs-pure _

  pub address-Unwritten :
      (node : Node) (id : Option Uuid)
      → Runs
          (Unwritten t₀)
          (relayed_address node id)
          (λ s e t. (t ≡ t₀) × (s ≡ address_in t₀ node id))
          Anything
  unfolding relayed_address
  address-Unwritten node none = Runs-weaken _ (Runs-pure _) (λ e t p. (p, refl)) (λ a e t p. p)
  address-Unwritten node (some id) =
      Runs-bind _ _ (Runs-read t₀ _) λ parent.
        Runs-weaken _ (Runs-pure _) (λ e t p. (p.0, ap (of_parent node) p.1)) (λ a e t p. p)

  pub server-Unwritten :
      (h : Option InboundHost) (cfg : ProtocolConfig) (node : Node)
      → Runs
          (Unwritten t₀)
          (effective_server h cfg node)
          (λ s e t. (t ≡ t₀) × (s ≡ endpoint_in t₀ h cfg node))
          Anything
  unfolding effective_server
  server-Unwritten (some h) cfg node =
      Runs-weaken _ (Runs-pure _) (λ e t p. (p, refl)) (λ a e t p. p)
  server-Unwritten none cfg node = Runs-bind _ _ (address-Unwritten node node.parent_id) λ s.
      Runs-weaken _ (Runs-pure _) (λ e t p. (p.0, ap (λ x. (x, as_u16 cfg.listen_port)) p.1))
        (λ a e t p. p)

  pub certificate-Unwritten :
      (id : Option Uuid)
      → Runs
          (Unwritten t₀)
          (find_certificate u id)
          (λ c e t. (t ≡ t₀) × (c ≡ certificate_in t₀ id))
          Anything
  unfolding find_certificate
  certificate-Unwritten none = Runs-weaken _ (Runs-pure _) (λ e t p. (p, refl)) (λ a e t p. p)
  certificate-Unwritten (some id) = Runs-read t₀ _

  pub tls-Unwritten :
      (node_id : Uuid) (tls : Option Value)
      → Runs
          (Unwritten t₀)
          (resolve_subscription_tls u node_id tls)
          (λ o e t. (t ≡ t₀) × (o ≡ tls_in u t₀ node_id tls))
          Anything
  unfolding resolve_subscription_tls
  tls-Unwritten node_id none = Runs-weaken _ (Runs-pure _) (λ e t p. (p, refl)) (λ a e t p. p)
  tls-Unwritten node_id (some tls) = Runs-bind _ _ (certificate-Unwritten _) λ c.
      Runs-weaken _ (Runs-pure _)
        (λ e t p. (p.0, ap (λ cert. some (resolved_with node_id tls cert)) p.1)) (λ a e t p. p)

  pub node-IsOf :
      (c : Client) (b : NodeBinding) (cfg : ProtocolConfig) (node : Node) (p : ProtocolType)
      → Runs
          (Unwritten t₀)
          (node_of u w c b cfg node p)
          (λ n e t. (t ≡ t₀) × (n.protocol ≡ p) × IsOf u w t₀ c b cfg node n)
          Anything
  unfolding node_of
  node-IsOf c b cfg node p = Runs-bind _ _ (Runs-read t₀ _) λ host. Runs-given _ λ h.
      Runs-bind _ _ (server-Unwritten host cfg node) λ s. Runs-given _ λ q.
        Runs-bind _ _ (tls-Unwritten b.node_id _) λ tls. Runs-given _ λ r.
          Runs-weaken _ (Runs-pure _)
            (λ e t same. (
              same,
              refl,
              (
                ap (λ o. display_name w o c cfg node) h,
                q ∙ ap (λ o. endpoint_in t₀ o cfg node) h,
                ap (λ o. with_host o (inject_client_credentials u c cfg.protocol_type cfg.settings))
                    h,
                r,
              ),
            ))
            (λ a e t x. x)
