-- ===== src/ConfigGen/Node/Bound.antt =====
-- Which inbounds a node's config has.
use multi_proxy_panel.Prelude.{
  ◌≡◌, refl, ◌∙◌, String, Bool, true, false, List, [], ◌∷◌, Option, none, some, ◌==◌, In, All, Just,
  find-Just, inl, inr,
}
use multi_proxy_panel.Db.{Result, ok, err, Env, pure, lift, statement, ◌>>=◌}
use multi_proxy_panel.Db.Runs.{
  Pred, Runs, Holds, Anything, Runs-pure, Runs-statement, Runs-bind, Runs-weaken, Runs-given,
}
use multi_proxy_panel.Hub.{Uuid}
use multi_proxy_panel.Json.{Value, get}
use multi_proxy_panel.Settings.{and_then, merge_tls_settings}
use multi_proxy_panel.Protocol.{CoreType, same_core}
use multi_proxy_panel.Builder.{InboundConfig}
use multi_proxy_panel.ConfigGen.{
  Tables, Uuids, NodeBinding, ProtocolConfig, one, present, parse_core_type, inject_binding_clients,
  inject_groups, inject_clients_of, resolve_managed_cert_tls, resolve_cert,
}
use multi_proxy_panel.ConfigGen.Node.{inbound_tag, inbound_of_config, inbounds_for}

-- Nothing is written.
abbrev pub Unwritten : Tables → Pred Tables
Unwritten t₀ e t = t ≡ t₀

pub Runs-lift :
    {A : Type 0} {pre : Pred Tables} (r : Result A)
    → Runs pre (lift r) (λ a e t. pre e t × (r ≡ ok a)) Anything
unfolding ◌>>=◌
Runs-lift (ok a) = record { from = λ c p. (p, refl) }
Runs-lift (err e) = record { from = λ c p. tt }

module _ (t₀ : Tables) where
  pub Runs-select :
      {A : Type 0} (f : Tables → Result A × Tables)
      → ((t : Tables) → (f t).1 ≡ t)
      → Runs (Unwritten t₀) (statement f) (λ a. Unwritten t₀) Anything
  Runs-select f reads =
      Runs-statement f (λ e t p. tt) (λ e t p. answered (f t).0 (f t).1 e (reads t ∙ p))
    where
      answered :
          {A : Type 0} (r : Result A) (t : Tables) (e : Env)
          → t ≡ t₀
          → Holds (λ a. Unwritten t₀) Anything r e t
      answered (ok a) t e p = p
      answered (err x) t e p = tt

  module _ (u : Uuids) where
    clients_Unwritten :
        (protocol : String) (settings : Value) (ids : List Uuid)
        → Runs
            (Unwritten t₀)
            (inject_clients_of u protocol settings ids)
            (λ a. Unwritten t₀)
            Anything
    unfolding inject_clients_of
    clients_Unwritten protocol settings [] = Runs-pure settings
    clients_Unwritten protocol settings (id ∷ ids) =
        Runs-bind _ _ (Runs-select _ (λ t. refl)) λ cs. Runs-pure _

    groups_Unwritten :
        (protocol : String) (settings : Value) (gs : List Uuid)
        → Runs (Unwritten t₀) (inject_groups u protocol settings gs) (λ a. Unwritten t₀) Anything
    unfolding inject_groups
    groups_Unwritten protocol settings [] = Runs-pure settings
    groups_Unwritten protocol settings (g ∷ gs) =
        Runs-bind _ _ (Runs-select _ (λ t. refl)) λ ms. clients_Unwritten protocol settings _

    cert_Unwritten :
        (node_id : Uuid) (tls : Value) (raw : Option String)
        → Runs (Unwritten t₀) (resolve_cert u node_id tls raw) (λ a. Unwritten t₀) Anything
    unfolding resolve_cert
    cert_Unwritten node_id tls none = Runs-pure _
    cert_Unwritten node_id tls (some raw) = Runs-bind _ _ (Runs-lift _) λ id.
        Runs-bind {mid = λ a. Unwritten t₀} _ _
          (Runs-weaken _ (Runs-select _ (λ t. refl)) (λ e t p. p.0) (λ a e t p. p))
          λ row.
            Runs-bind _ _ (Runs-lift _)
              λ cert. Runs-weaken _ (Runs-lift _) (λ e t p. p.0) (λ a e t p. p.0)

    tls_Unwritten :
        (node_id : Uuid) (tls : Option Value)
        → Runs (Unwritten t₀) (resolve_managed_cert_tls u node_id tls) (λ a. Unwritten t₀) Anything
    unfolding resolve_managed_cert_tls
    tls_Unwritten node_id none = Runs-pure _
    tls_Unwritten node_id (some tls) = cert_Unwritten node_id tls _

    one_inbound :
        (node_id : Uuid) (version : Option String) (b : NodeBinding) (cfg : ProtocolConfig)
        → Runs
            (Unwritten t₀)
            (inbound_of_config u node_id version b cfg)
            (λ i e t. (t ≡ t₀) × (i.tag ≡ inbound_tag u cfg))
            Anything
    unfolding inbound_of_config inject_binding_clients
    one_inbound node_id version b cfg = Runs-bind _ _ (Runs-lift _) λ protocol.
        Runs-bind {mid = λ a. Unwritten t₀} _ _
          (Runs-weaken _ (Runs-bind _ _ (Runs-select _ (λ t. refl)) λ gs. groups_Unwritten _ _ _)
            (λ e t p. p.0) (λ a e t p. p))
          λ settings.
            Runs-bind _ _
              (tls_Unwritten node_id (
                merge_tls_settings cfg.tls_settings
                  (and_then b.override_settings (get "tls_settings"))))
              λ tls. Runs-weaken _ (Runs-pure _) (λ e t p. (p, refl)) (λ a e t p. p)

    -- The inbound is that of a config of the core, to which one of the bindings binds.
    abbrev pub IsBound : CoreType → List NodeBinding → InboundConfig → Type 0
    IsBound core bs i =
        (b : NodeBinding) × (cfg : ProtocolConfig) × In b bs
        × In cfg t₀.configs
        × ((cfg.id == b.protocol_config_id) ≡ true)
        × (same_core (parse_core_type cfg.core_type) core ≡ true)
        × (i.tag ≡ inbound_tag u cfg)

    later :
        (core : CoreType) (b : NodeBinding) (bs : List NodeBinding) (is : List InboundConfig)
        → All (IsBound core bs) is
        → All (IsBound core (b ∷ bs)) is
    later core b bs [] h = tt
    later core b bs (i ∷ is) h =
        let (c, cfg, m, n, k, s, e) = h.0 in ((c, cfg, inr m, n, k, s, e), later core b bs is h.1)

    abbrev IsRow : NodeBinding → ProtocolConfig → Type 0
    IsRow b cfg = In cfg t₀.configs × ((cfg.id == b.protocol_config_id) ≡ true)

    config-IsRow :
        (b : NodeBinding)
        → Runs
            (Unwritten t₀)
            (one (λ t. t.configs) (λ c. c.id == b.protocol_config_id))
            (λ row e t. (t ≡ t₀) × Just (IsRow b) row)
            Anything
    config-IsRow b =
        Runs-statement _ (λ e t p. tt)
          (λ e t p. (p, rw p (find-Just (λ c. c.id == b.protocol_config_id) t₀.configs)))

    present-IsRow :
        (b : NodeBinding) (row : Option ProtocolConfig)
        → Runs
            (λ e t. (t ≡ t₀) × Just (IsRow b) row)
            (lift (present row))
            (λ cfg e t. (t ≡ t₀) × IsRow b cfg)
            Anything
    unfolding ◌>>=◌
    present-IsRow b none = record { from = λ c p. tt }
    present-IsRow b (some cfg) = record { from = λ c p. p }

    pub bound :
        (node_id : Uuid) (core : CoreType) (version : Option String) (bs : List NodeBinding)
        → Runs
            (Unwritten t₀)
            (inbounds_for u node_id core version bs)
            (λ is e t. (t ≡ t₀) × All (IsBound core bs) is)
            Anything
    unfolding inbounds_for
    bound node_id core version [] = Runs-weaken _ (Runs-pure _) (λ e t p. (p, tt)) (λ a e t p. p)
    bound node_id core version (b ∷ bs) = Runs-bind _ _ (config-IsRow b) λ row.
        Runs-bind _ _ (present-IsRow b row) λ cfg.
          turn (bound node_id core version bs) cfg (same_core (parse_core_type cfg.core_type) core)
            refl
      where
        turn :
            Runs
              (Unwritten t₀)
              (inbounds_for u node_id core version bs)
              (λ is e t. (t ≡ t₀) × All (IsBound core bs) is)
              Anything
            → (cfg : ProtocolConfig) (same : Bool)
            → same_core (parse_core_type cfg.core_type) core ≡ same
            → Runs
                (λ e t. (t ≡ t₀) × IsRow b cfg)
                (elim same [
                  | false ↦ inbounds_for u node_id core version bs
                  | true ↦ inbound_of_config u node_id version b cfg >>= λ i.
                      inbounds_for u node_id core version bs >>= λ rest. pure (i ∷ rest)
                ])
                (λ is e t. (t ≡ t₀) × All (IsBound core (b ∷ bs)) is)
                Anything
        turn rest cfg false e =
            Runs-weaken _ rest (λ e t p. p.0) (λ is e t p. (p.0, later core b bs is p.1))
        turn rest cfg true e = Runs-given _ λ row.
            Runs-bind _ _ (one_inbound node_id version b cfg) λ i. Runs-given _ λ tag.
              Runs-bind _ _ rest λ is.
                Runs-weaken _ (Runs-pure _)
                  (λ x t p.
                    (p.0, ((b, cfg, inl refl, row.0, row.1, e, tag), later core b bs is p.1)))
                  (λ a x t p. p)
