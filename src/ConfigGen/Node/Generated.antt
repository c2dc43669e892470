-- ===== src/ConfigGen/Node/Generated.antt =====
-- The config that is generated for a node is made of the inbounds that are bound to it.
use multi_proxy_panel.Prelude.{
  ◌≡◌, refl, sym, ap, ◌∙◌, subst, String, Bool, true, false, ◌&&◌, List, [], ◌∷◌, Option, ◌==◌, In,
  All, retain, retain-In, ==_iff, if◌then◌else◌, arith,
}
use multi_proxy_panel.Db.{Result, ok, err, config, Conn, Sql}
use multi_proxy_panel.Db.Runs.{
  Pred, Runs, Holds, Anything, Runs-pure, Runs-read, Runs-bind, Runs-weaken, Runs-given,
  Runs-returned,
}
use multi_proxy_panel.Hub.{Uuid}
use multi_proxy_panel.Json.{Value}
use multi_proxy_panel.Protocol.{CoreType, sing_box, mihomo, same_core}
use multi_proxy_panel.Builder.{InboundConfig}
use multi_proxy_panel.ConfigGen.{Tables, Uuids, NodeBinding, ProtocolConfig, parse_core_type}
use multi_proxy_panel.ConfigGen.RelayRules.{from_built, apply_relay_rules}
use multi_proxy_panel.ConfigGen.Node.{inbound_tag, build_for, schema_checked, generate_node_config}
use multi_proxy_panel.ConfigGen.Node.Bound.{IsBound, Unwritten, Runs-lift, bound}

-- The inbound is that of a config of the core, to which an active binding of the node binds.
abbrev pub IsOfNode : Tables → Uuids → Uuid → CoreType → InboundConfig → Type 0
IsOfNode t u node_id core i =
    (b : NodeBinding) × (cfg : ProtocolConfig) × In b t.bindings
    × (b.node_id ≡ node_id)
    × (b.is_active ≡ true)
    × In cfg t.configs
    × (cfg.id ≡ b.protocol_config_id)
    × (same_core (parse_core_type cfg.core_type) core ≡ true)
    × (i.tag ≡ inbound_tag u cfg)

mine : (t : Tables) (node_id : Uuid) → List NodeBinding
mine t node_id = retain (λ b. b.node_id == node_id && b.is_active) t.bindings

both : (a b : Bool) → a && b ≡ true → (a ≡ true) × (b ≡ true)
both a b h = ground arith

all_of_node :
    (t : Tables) (u : Uuids) (node_id : Uuid) (core : CoreType) (bs : List NodeBinding)
    (is : List InboundConfig)
    → bs ≡ retain (λ b. b.node_id == node_id && b.is_active) t.bindings
    → All (IsBound t u core bs) is
    → All (IsOfNode t u node_id core) is
all_of_node t u node_id core bs [] e h = tt
all_of_node t u node_id core bs (i ∷ is) e h =
    let (b, cfg, m, n, k, s, tag) = h.0 in
    let there =
      retain-In (λ b. b.node_id == node_id && b.is_active) t.bindings b (subst (In b) e m) in
    let test = both (b.node_id == node_id) b.is_active there.1 in
    (
      (
        b,
        cfg,
        there.0,
        (==_iff b.node_id node_id).0 test.0,
        test.1,
        n,
        (==_iff cfg.id b.protocol_config_id).0 k,
        s,
        tag,
      ),
      all_of_node t u node_id core bs is e h.1,
    )

-- What a run returned.
Runs-result :
    {A : Type 0} {pre : Pred Tables} (m : Sql Tables A)
    → Runs pre m (λ a e t. (d : Conn Tables) × pre d.env d.tables × ((m d).0 ≡ ok a)) Anything
Runs-result {A} {pre} m = record { from = λ c p. go c p (m c).0 (m c).1 refl }
  where
    go :
        (c : Conn Tables) (p : pre c.env c.tables) (r : Result A) (d : Conn Tables)
        → (m c).0 ≡ r
        → Holds
            (λ a e t. (x : Conn Tables) × pre x.env x.tables × ((m x).0 ≡ ok a))
            Anything
            r
            d.env
            d.tables
    go c p (ok a) d e = (c, p, e)
    go c p (err x) d e = tt

abbrev ok_or : Value → Result Value → Value
ok_or other (ok v) = v
ok_or other (err e) = other

passed :
    (b : Bool) (routed checked : Value)
    → (if b then ok routed else err config) ≡ ok checked
    → checked ≡ routed
passed true routed checked h = ap (ok_or routed) (sym h)
passed false routed checked h = cc

unwritten :
    {A : Type 0} (t₀ : Tables) (m : Sql Tables A)
    → ((d : Conn Tables) → (m d).1.tables ≡ d.tables)
    → Runs (Unwritten t₀) m (λ a. Unwritten t₀) Anything
unwritten {A} t₀ m h = record { from = λ c p. go (m c).0 (m c).1 (h c ∙ p) }
  where
    go :
        (r : Result A) (d : Conn Tables)
        → d.tables ≡ t₀
        → Holds (λ a. Unwritten t₀) Anything r d.env d.tables
    go (ok a) d p = p
    go (err x) d p = tt

module _ (u : Uuids) (effective : CoreType → Sql Tables (Option String)) (valid : Value → Bool)
    (var : String → Option String) (node_id : Uuid) (core : CoreType) where
  -- The config is built from inbounds of the node, and the relay rules are applied to it.
  abbrev pub IsMadeOf : Tables → Value → Type 0
  IsMadeOf t made =
      (is : List InboundConfig) × (base : Value) × (d : Conn Tables) × All
        (IsOfNode t u node_id core) is
      × (from_built (build_for u effective valid var core is) ≡ ok base)
      × (d.tables ≡ t)
      × ((apply_relay_rules u node_id core base d).0 ≡ ok made)

  schema-same :
      (k : CoreType) (routed checked : Value)
      → schema_checked u valid k routed ≡ ok checked
      → checked ≡ routed
  schema-same mihomo routed checked h = ap (ok_or routed) (sym h)
  schema-same sing_box routed checked h = passed (valid routed) routed checked h

  made :
      (t₀ : Tables)
      → ((d : Conn Tables) → (effective core d).1.tables ≡ d.tables)
      → Runs
          (Unwritten t₀)
          (generate_node_config u effective valid var node_id core)
          (λ r e t. IsMadeOf t₀ r.0)
          Anything
  unfolding generate_node_config
  made t₀ reads = Runs-bind _ _ (unwritten t₀ _ reads) λ version.
      Runs-bind _ _ (Runs-read t₀ _) λ bs. Runs-given _ λ e.
        Runs-bind _ _ (bound t₀ u node_id core version bs) λ is. Runs-given _ λ all.
          Runs-bind _ _ (Runs-lift _) λ base. Runs-given _ λ b.
            Runs-bind
              {mid = λ routed e t.
                Unit {0}
                × ((d : Conn Tables) × (d.tables ≡ t₀)
                    × ((apply_relay_rules u node_id core base d).0 ≡ ok routed))}
              _ _
              (Runs-weaken _ (Runs-result {pre = Unwritten t₀} _) (λ x t p. p) (λ r x t p. (tt, p)))
              λ routed. Runs-given _ λ ran. Runs-bind _ _ (Runs-lift _) λ checked.
                Runs-given _ λ same.
                  Runs-weaken _ (Runs-pure _)
                    (λ x t p. (
                      is,
                      base,
                      ran.0,
                      all_of_node t₀ u node_id core bs is e all,
                      b,
                      ran.1,
                      ran.2 ∙ ap ok (sym (schema-same core routed checked same)),
                    ))
                    (λ a x t p. p)

-- A config that is generated for a core of a node is built from inbounds of which each is that of a
-- config of this core, to which an active binding of this node binds, and changed by the relay rules
-- alone. The question for the core's version is taken to write nothing.
pub generate_node_config-IsMadeOf :
    (u : Uuids) (effective : CoreType → Sql Tables (Option String)) (valid : Value → Bool)
    (var : String → Option String) (node_id : Uuid) (core : CoreType) (c : Conn Tables)
    (r : Value × Option String)
    → ((d : Conn Tables) → (effective core d).1.tables ≡ d.tables)
    → (generate_node_config u effective valid var node_id core c).0 ≡ ok r
    → IsMadeOf u effective valid var node_id core c.tables r.0
generate_node_config-IsMadeOf u effective valid var node_id core c r reads e =
    Runs-returned _ (made u effective valid var node_id core c.tables reads) c refl e
