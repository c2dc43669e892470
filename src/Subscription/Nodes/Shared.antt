-- ===== src/Subscription/Nodes/Shared.antt =====
-- Which bindings a subscription is made of.
use multi_proxy_panel.Prelude.{
  ◌≡◌, refl, sym, ap, ◌∙◌, subst, Bool, true, false, ◌&&◌, List, [], ◌∷◌, Option, none, some, ◌==◌,
  In, All, Just, find-Just, retain-In, false≢true, if◌then◌else◌, inl, inr, arith,
}
use multi_proxy_panel.Db.{Result, ok, err, Conn, pure, ◌>>=◌}
use multi_proxy_panel.Db.Runs.{
  Runs, Anything, Runs-pure, Runs-read, Runs-bind, Runs-weaken, Runs-given, Runs-returned,
}
use multi_proxy_panel.Hub.{Uuid}
use multi_proxy_panel.Protocol.{ProtocolType, parse_protocol}
use multi_proxy_panel.Json.{Value}
use multi_proxy_panel.ConfigGen.{Uuids, NodeBinding, ProtocolConfig}
use multi_proxy_panel.Subscription.{ProxyNode}
use multi_proxy_panel.Subscription.Nodes.{
  Client, Node, Tables, serves, rule_texts, shares, protocol_allowed,
}
use multi_proxy_panel.Subscription.Nodes.Remark.{Shown}
use multi_proxy_panel.Subscription.Nodes.Build.{
  Filter, get_binding_group_ids, node_of, admitted, kept, onto, admitted_node, row_node, nodes_loop,
  served_nodes, build_proxy_nodes,
}
use multi_proxy_panel.Subscription.Nodes.Reads.{
  shares_group, groups_of_client, shares-group, Unwritten, group_ids-Unwritten,
  client_ids-Unwritten, allowed_ids-Unwritten, node-IsOf, IsOf,
}

and_left : (a b : Bool) → a && b ≡ true → a ≡ true
and_left a b h = ground arith

all_of : {A : Type 0} {P : A → Type 0} (xs : List A) → ((x : A) → In x xs → P x) → All P xs
all_of [] h = tt
all_of (x ∷ xs) h = (h x (inl refl), all_of xs (λ y m. h y (inr m)))

-- The listed node is made of an active binding that shares a group with the client, and of its config
-- and its node; the protocol is the config's, and the rules admit it.
abbrev pub IsServed : Uuids → Shown → Tables → Client → Option Value → ProxyNode → Type 0
IsServed u w t c rules n =
    (b : NodeBinding) × (cfg : ProtocolConfig) × (node : Node) × In b t.bindings
    × (b.is_active ≡ true)
    × In cfg t.configs
    × ((cfg.id == b.protocol_config_id) ≡ true)
    × In node t.nodes
    × ((node.id == b.node_id) ≡ true)
    × IsOf u w t c b cfg node n
    × (parse_protocol cfg.protocol_type ≡ some n.protocol)
    × (shares_group t c b ≡ true)
    × (protocol_allowed (rule_texts "protocols" rules) n.protocol ≡ true)

module _ (u : Uuids) (w : Shown) (t₀ : Tables) where
  -- What the loop knows of the client and the rules.
  abbrev knows : Client → Option Value → List Uuid → Filter
  knows c rules groups = record {
    client = c;
    client_groups = groups_of_client t₀ c;
    protocols = rule_texts "protocols" rules;
    groups = groups;
  }

  module _ (c : Client) (rules : Option Value) (groups : List Uuid) where
    abbrev Passes : NodeBinding → ProtocolConfig → Node → ProxyNode → Type 0
    Passes b cfg node n =
        IsOf u w t₀ c b cfg node n
        × (parse_protocol cfg.protocol_type ≡ some n.protocol)
        × (shares_group t₀ c b ≡ true)
        × (protocol_allowed (rule_texts "protocols" rules) n.protocol ≡ true)

    kept-Passes :
        (b : NodeBinding) (cfg : ProtocolConfig) (node : Node) (p : ProtocolType) (x : Bool)
        → (x ≡ true → shares_group t₀ c b ≡ true)
        → parse_protocol cfg.protocol_type ≡ some p
        → protocol_allowed (rule_texts "protocols" rules) p ≡ true
        → Runs
            (Unwritten t₀)
            (kept x (node_of u w c b cfg node p))
            (λ o e t. (t ≡ t₀) × Just (Passes b cfg node) o)
            Anything
    kept-Passes b cfg node p false h e a =
        Runs-weaken _ (Runs-pure _) (λ x t q. (q, tt)) (λ o x t q. q)
    kept-Passes b cfg node p true h e a = Runs-bind _ _ (node-IsOf u w t₀ c b cfg node p) λ n.
        Runs-weaken _ (Runs-pure _)
          (λ x t q. (
            q.0,
            (
              q.2,
              e ∙ ap some (sym q.1),
              h refl,
              subst (λ r. protocol_allowed (rule_texts "protocols" rules) r ≡ true) (sym q.1) a,
            ),
          ))
          (λ o x t q. q)

    admitted_node-Passes :
        (b : NodeBinding) (cfg : ProtocolConfig) (node : Node) (o : Option ProtocolType)
        → parse_protocol cfg.protocol_type ≡ o
        → Runs
            (Unwritten t₀)
            (admitted_node u w (knows c rules groups) b cfg node o)
            (λ n e t. (t ≡ t₀) × Just (Passes b cfg node) n)
            Anything
    unfolding admitted_node
    admitted_node-Passes b cfg node none e =
        Runs-weaken _ (Runs-pure _) (λ x t q. (q, tt)) (λ o x t q. q)
    admitted_node-Passes b cfg node (some p) e =
        turn (protocol_allowed (rule_texts "protocols" rules) p) refl
      where
        turn :
            (a : Bool)
            → protocol_allowed (rule_texts "protocols" rules) p ≡ a
            → Runs
                (Unwritten t₀)
                (elim a [
                  | false ↦ pure none
                  | true ↦ get_binding_group_ids b.id >>= λ gs.
                      kept (admitted (knows c rules groups) gs) (node_of u w c b cfg node p)
                ])
                (λ n e t. (t ≡ t₀) × Just (Passes b cfg node) n)
                Anything
        turn false a = Runs-weaken _ (Runs-pure _) (λ x t q. (q, tt)) (λ o x t q. q)
        turn true a = Runs-bind _ _ (group_ids-Unwritten u w t₀ b) λ gs. Runs-given _ λ g.
            kept-Passes b cfg node p _
              (λ ad.
                sym (shares-group t₀ c b)
                ∙ ap (λ hs. shares hs (groups_of_client t₀ c)) (sym g)
                ∙ and_left _ _ ad)
              e a

    abbrev RowPasses : NodeBinding → Option ProtocolConfig → Option Node → ProxyNode → Type 0
    RowPasses b row place n =
        (cfg : ProtocolConfig) × (node : Node) × (row ≡ some cfg)
        × (place ≡ some node)
        × Passes b cfg node n

    of_row :
        (b : NodeBinding) (cfg : ProtocolConfig) (node : Node) (o : Option ProxyNode)
        → Just (Passes b cfg node) o
        → Just (RowPasses b (some cfg) (some node)) o
    of_row b cfg node none p = tt
    of_row b cfg node (some n) p = (cfg, node, refl, refl, p)

    row_node-Passes :
        (b : NodeBinding) (row : Option ProtocolConfig) (place : Option Node)
        → Runs
            (Unwritten t₀)
            (row_node u w (knows c rules groups) b row place)
            (λ n e t. (t ≡ t₀) × Just (RowPasses b row place) n)
            Anything
    unfolding row_node
    row_node-Passes b none _ = Runs-weaken _ (Runs-pure _) (λ x t q. (q, tt)) (λ o x t q. q)
    row_node-Passes b (some cfg) none =
        Runs-weaken _ (Runs-pure _) (λ x t q. (q, tt)) (λ o x t q. q)
    row_node-Passes b (some cfg) (some node) =
        Runs-weaken _ (admitted_node-Passes b cfg node _ refl) (λ x t q. q)
          (λ o x t q. (q.0, of_row b cfg node o q.1))

    abbrev IsRow : NodeBinding → ProtocolConfig → Type 0
    IsRow b cfg = In cfg t₀.configs × ((cfg.id == b.protocol_config_id) ≡ true)

    abbrev IsPlace : NodeBinding → Node → Type 0
    IsPlace b node = In node t₀.nodes × ((node.id == b.node_id) ≡ true)

    served :
        (b : NodeBinding) (row : Option ProtocolConfig) (place : Option Node) (o : Option ProxyNode)
        (ns : List ProxyNode)
        → In b t₀.bindings × (b.is_active ≡ true)
        → Just (IsRow b) row
        → Just (IsPlace b) place
        → Just (RowPasses b row place) o
        → All (IsServed u w t₀ c rules) ns
        → All (IsServed u w t₀ c rules) (onto o ns)
    served b row place none ns i r l p h = h
    served b row place (some n) ns i r l p h =
        let (cfg, node, e, d, q) = p in
        let found = subst (Just (IsRow b)) e r in
        let there = subst (Just (IsPlace b)) d l in
        ((b, cfg, node, i.0, i.1, found.0, found.1, there.0, there.1, q.0, q.1, q.2, q.3), h)

    nodes_loop-IsServed :
        (bs : List NodeBinding)
        → All (λ b. In b t₀.bindings × (b.is_active ≡ true)) bs
        → Runs
            (Unwritten t₀)
            (nodes_loop u w (knows c rules groups) bs)
            (λ ns e t. (t ≡ t₀) × All (IsServed u w t₀ c rules) ns)
            Anything
    unfolding nodes_loop
    nodes_loop-IsServed [] h = Runs-weaken _ (Runs-pure _) (λ x t q. (q, tt)) (λ o x t q. q)
    nodes_loop-IsServed (b ∷ bs) h = Runs-bind _ _ (Runs-read t₀ _) λ row. Runs-given _ λ found.
        Runs-bind _ _ (Runs-read t₀ _) λ node. Runs-given _ λ q.
          Runs-bind _ _ (row_node-Passes b row node) λ made. Runs-given _ λ passes.
            Runs-bind _ _ (nodes_loop-IsServed bs h.1) λ rest.
              Runs-weaken _ (Runs-pure _)
                (λ x t r. (
                  r.0,
                  served b row node made rest h.0
                      (subst (Just (IsRow b)) (sym found)
                        (find-Just (λ cfg. cfg.id == b.protocol_config_id) t₀.configs))
                      (subst (Just (IsPlace b)) (sym q)
                        (find-Just (λ n. n.id == b.node_id) t₀.nodes))
                      passes r.1,
                ))
                (λ o x t r. r)

  served_nodes-IsServed :
      (c : Client) (rules : Option Value)
      → Runs
          (Unwritten t₀)
          (served_nodes u w c rules)
          (λ ns e t. (t ≡ t₀) × All (IsServed u w t₀ c rules) ns)
          Anything
  unfolding served_nodes
  served_nodes-IsServed c rules = Runs-bind _ _ (client_ids-Unwritten u w t₀ c) λ mine.
      Runs-given _ λ e. Runs-bind _ _ (allowed_ids-Unwritten u w t₀ _) λ groups.
        Runs-bind _ _ (Runs-read t₀ _) λ bs. Runs-given _ λ active.
          subst
            (λ gs.
              Runs (Unwritten t₀)
                (nodes_loop u w (record (knows c rules groups) { client_groups = gs }) bs)
                (λ ns e t. (t ≡ t₀) × All (IsServed u w t₀ c rules) ns) Anything)
            (sym e)
            (nodes_loop-IsServed c rules groups bs (
              subst (All λ b. In b t₀.bindings × (b.is_active ≡ true)) (sym active)
                (all_of _ (λ b m. retain-In (λ b. b.is_active) t₀.bindings b m))))

abbrev nodes_or : List ProxyNode → Result (List ProxyNode) → List ProxyNode
nodes_or other (ok ns) = ns
nodes_or other (err e) = other

-- Every node that is listed is made of an active binding with a group in common with the client, of
-- the config and of the node that the binding names: it has their name or the override's, the address
-- of the override, of the node's parent or of the node, the port, the config's settings with the
-- client's credentials and the override's names, and the TLS settings of the config and the binding.
-- Its protocol is the config's, and is among those of the template's rules, where these name any. A
-- client that is limited or expired gets no nodes. Nothing is written.
pub build_proxy_nodes-IsServed :
    (u : Uuids) (w : Shown) (client : Client) (rules : Option Value) (c : Conn Tables)
    (ns : List ProxyNode)
    → (build_proxy_nodes u w client rules c).0 ≡ ok ns
    → ((build_proxy_nodes u w client rules c).1.tables ≡ c.tables)
      × All (IsServed u w c.tables client rules) ns
      × (serves client.status ≡ false → ns ≡ [])
unfolding build_proxy_nodes pure
build_proxy_nodes-IsServed u w client rules c ns e = by_status (serves client.status) e
  where
    by_status :
        (b : Bool)
        → ((if b then served_nodes u w client rules else pure []) c).0 ≡ ok ns
        → (((if b then served_nodes u w client rules else pure []) c).1.tables ≡ c.tables)
          × All (IsServed u w c.tables client rules) ns
          × (b ≡ false → ns ≡ [])
    by_status true e =
        let given = Runs-returned _ (served_nodes-IsServed u w c.tables client rules) c refl e in
        (given.0, given.1, λ f. absurd (false≢true (sym f)))
    by_status false e =
        let none_given = ap (nodes_or []) e in
        (refl, subst (All (IsServed u w c.tables client rules)) none_given tt, λ f. sym none_given)
