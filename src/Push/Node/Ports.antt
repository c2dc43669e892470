-- ===== src/Push/Node/Ports.antt =====
-- What validate_node_port_conflicts rules out.
use multi_proxy_panel.Prelude.{
  ◌≡◌, refl, sym, ap, subst, false≢true, Bool, true, false, ◌&&◌, List, [], ◌∷◌, ◌++◌, ◌==◌, any,
  retain, All, Bool-cases, inl, inr, if◌then◌else◌,
}
use multi_proxy_panel.Db.{validation, ok, err, Conn, lift, ◌>>=◌}
use multi_proxy_panel.Db.Runs.{
  Pred, Runs, Anything, Runs-pure, Runs-statement, Runs-bind, Runs-weaken, Runs-given,
  Runs-returned,
}
use multi_proxy_panel.Hub.{Hub, Uuid, NodeBinding, ProtocolConfig}
use multi_proxy_panel.Push.Node.{
  Endpoint, same_endpoint, endpoint, next_ports, ports_loop, validate_node_port_conflicts,
}

abbrev endpoints_of : NodeBinding → List ProtocolConfig → List Endpoint
endpoints_of b [] = []
endpoints_of b (c ∷ cs) = endpoint b c ∷ []

-- The endpoints of these bindings, whose configs are in the table.
abbrev pub claimed : List ProtocolConfig → List NodeBinding → List Endpoint
claimed configs [] = []
claimed configs (b ∷ bs) =
    endpoints_of b (retain (λ c. c.id == b.protocol_config_id) configs) ++ claimed configs bs

-- No two of them are for one core, address and port.
abbrev pub Apart : List Endpoint → Type 0
Apart [] = Unit
Apart (e ∷ es) = All (λ x. same_endpoint e x ≡ false) es × Apart es

abbrev Unseen : List Endpoint → Endpoint → Type 0
Unseen seen e = any (λ s. same_endpoint s e) seen ≡ false

abbrev Clear : List Endpoint → List Endpoint → Type 0
Clear seen es = Apart es × All (Unseen seen) es

split :
    (e : Endpoint) (seen es : List Endpoint)
    → All (Unseen (e ∷ seen)) es
    → All (λ x. same_endpoint e x ≡ false) es × All (Unseen seen) es
split e seen [] h = (tt, tt)
split e seen (x ∷ xs) h =
    let rest = split e seen xs h.1 in
    elim (Bool-cases (same_endpoint e x)) [
      | inl t ↦ absurd (
          false≢true (
            sym
              (subst (λ b. (if b then true else any (λ s. same_endpoint s x) seen) ≡ false) t h.0)))
      | inr t ↦ (
        (t, rest.0),
        (
          subst (λ b. (if b then true else any (λ s. same_endpoint s x) seen) ≡ false) t h.0,
          rest.1,
        ),
      )
    ]

module _ (h0 : Hub) where
  abbrev Reads : Pred Hub
  Reads e h = h ≡ h0

  abbrev found : NodeBinding → List ProtocolConfig
  found b = retain (λ c. c.id == b.protocol_config_id) h0.configs

  -- The endpoint of the next binding is noted if it is new.
  next-Clear :
      (b : NodeBinding) (bs : List NodeBinding) (seen : List Endpoint) (cs : List ProtocolConfig)
      → ((s : List Endpoint)
          → Runs Reads (ports_loop bs s) (λ u e h. Clear s (claimed h0.configs bs)) Anything)
      → Runs Reads
          (lift (next_ports b cs seen) >>= λ s. ports_loop bs s)
          (λ u e h. Clear seen (endpoints_of b cs ++ claimed h0.configs bs))
          Anything
  unfolding next_ports ◌>>=◌
  next-Clear b bs seen [] ih = record { from = λ c p. (ih seen).from c p }
  next-Clear b bs seen (c ∷ cs) ih = tested _ refl
    where
      tested :
          (q : Bool)
          → any (λ s. same_endpoint s (endpoint b c)) seen ≡ q
          → Runs Reads
              (lift (if q then err validation else ok (endpoint b c ∷ seen)) >>= λ s.
                ports_loop bs s)
              (λ u e h. Clear seen (endpoint b c ∷ claimed h0.configs bs))
              Anything
      tested true t = record { from = λ x p. tt }
      tested false t = record {
        from = λ x p.
            (Runs-weaken _ (ih (endpoint b c ∷ seen)) (λ e h p. p)
                (λ a e h p.
                  (let s = split (endpoint b c) seen (claimed h0.configs bs) p.1 in
                    ((s.0, p.0), (t, s.1))))).from
              x p;
      }

  ports_loop-Clear :
      (bs : List NodeBinding) (seen : List Endpoint)
      → Runs Reads (ports_loop bs seen) (λ u e h. Clear seen (claimed h0.configs bs)) Anything
  unfolding ports_loop
  ports_loop-Clear [] seen =
      Runs-weaken {post = λ u e h. Clear seen []} _ (Runs-pure tt) (λ e h p. (tt, tt))
        (λ a e h p. p)
  ports_loop-Clear (b ∷ bs) seen =
      Runs-bind {mid = λ cs e h. Reads e h × (cs ≡ found b)} _ _
        (Runs-statement _ (λ e h p. tt)
          (λ e h p. (p, ap (λ (x : Hub). retain (λ c. c.id == b.protocol_config_id) x.configs) p)))
        λ cs. Runs-given _ (λ e.
          subst
            (λ ds.
              Runs Reads (lift (next_ports b cs seen) >>= λ s. ports_loop bs s)
                (λ u e h. Clear seen (endpoints_of b ds ++ claimed h0.configs bs)) Anything)
            e (next-Clear b bs seen cs (ports_loop-Clear bs)))

  validate-Apart :
      (node : Uuid)
      → Runs Reads
          (validate_node_port_conflicts node)
          (λ u e h.
            Apart (claimed h0.configs (retain (λ b. b.node_id == node && b.is_active) h0.bindings)))
          Anything
  unfolding validate_node_port_conflicts
  validate-Apart node =
      Runs-bind {mid = λ bs e h. Reads e h × (bs ≡ active)} _ _
        (Runs-statement _ (λ e h p. tt)
          (λ e h p.
            (p, ap (λ (x : Hub). retain (λ b. b.node_id == node && b.is_active) x.bindings) p)))
        λ bs. Runs-given _ (λ e.
          subst
            (λ ds. Runs Reads (ports_loop bs []) (λ u e h. Apart (claimed h0.configs ds)) Anything)
            e (Runs-weaken _ (ports_loop-Clear bs []) (λ e h p. p) (λ a e h p. p.0)))
    where
      active : List NodeBinding
      active = retain (λ b. b.node_id == node && b.is_active) h0.bindings

-- When validate_node_port_conflicts passes a node, no two of its active bindings, with their
-- overrides, are for the same core, address and port.
pub validate_node_port_conflicts-Apart :
    (node : Uuid) (c : Conn Hub)
    → (validate_node_port_conflicts node c).0 ≡ ok tt
    → Apart (
        claimed c.tables.configs (retain (λ b. b.node_id == node && b.is_active) c.tables.bindings))
validate_node_port_conflicts-Apart node c r =
    Runs-returned (validate_node_port_conflicts node) (validate-Apart c.tables node) c refl r
