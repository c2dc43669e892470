-- ===== src/Agent/Snapshots/Kept.antt =====
-- The snapshot of an older Agent is not lost.
use multi_proxy_panel.Prelude.{
  ◌≡◌, refl, sym, ap, ◌∙◌, String, List, [], ◌∷◌, Option, none, some, is_some, unwrap_or,
  if◌then◌else◌, Bool-cases, inl, inr, ◌⊎◌,
}
use multi_proxy_panel.Db.{Result, ok, err, Env, Conn, ◌>>=◌}
use multi_proxy_panel.Db.Runs.{
  Pred, Runs, Holds, Keeps, Runs-pure, Runs-weaken, Runs-bind, Runs-gets, Runs-given,
}
use multi_proxy_panel.Protocol.{CoreType, parse_core}
use multi_proxy_panel.Agent.{Agent, step, ignored, same_core_refl}
use multi_proxy_panel.Agent.Runs.{Runs-ignored}
use multi_proxy_panel.Agent.Snapshots.{
  PersistedConfig, Codec, load_one, drop_legacy, move_legacy, migrate_to, migrate_read,
  migrate_legacy_snapshot, load_each, all_cores, load_last_configs,
}

module _ (f : Codec) (raw : String) (s : PersistedConfig) (core : CoreType) (held : Option String)
    (read : f.from_slice raw ≡ some s) (known : parse_core s.core_type ≡ some core) where
  abbrev IsOld : Pred Agent
  IsOld e a = (a.legacy ≡ some raw) × (a.snapshots core ≡ held)

  abbrev IsKept : Pred Agent
  IsKept e a =
      ((a.legacy ≡ some raw) × (a.snapshots core ≡ held))
      ⊎ (a.snapshots core ≡ some (unwrap_or held raw))

  runs_read :
      Runs IsOld (load_one f (some raw)) (λ o e t. IsOld e t × ((o ≡ none) ⊎ (o ≡ some s))) IsKept
  unfolding load_one step ◌>>=◌
  runs_read = record {
    from = λ c p. elim (Bool-cases (c.env.fails c.asked)) [
      | inl bad ↦ rw bad (p, inl refl)
      | inr good ↦ rw good (p, inr read)
    ];
  }

  placed :
      (target : Option String)
      → Runs
          (λ e t. IsOld e t × (target ≡ t.snapshots core))
          (if is_some target then ignored (step drop_legacy) else ignored (step (move_legacy core)))
          (λ u. IsKept)
          IsKept
  placed (some old) =
      Runs-ignored _ (λ e t p. inl p.0)
        (λ e t p. inr (sym p.1 ∙ ap (λ o. some (unwrap_or o raw)) (p.1 ∙ p.0.1)))
  placed none =
      Runs-ignored _ (λ e t p. inl p.0)
        (λ e t p.
          inr (rw (same_core_refl core) (p.0.0 ∙ ap (λ o. some (unwrap_or o raw)) (p.1 ∙ p.0.1))))

  migrates :
      (o : Option PersistedConfig)
      → (o ≡ none) ⊎ (o ≡ some s)
      → Runs IsOld (migrate_read f o) (λ u. IsKept) IsKept
  unfolding migrate_read migrate_to
  migrates o (inl e) = rw e (Runs-weaken _ (Runs-pure tt) (λ x t p. inl p) (λ u x t p. p))
  migrates o (inr e) = rw (e, known) (Runs-bind _ _ (Runs-gets _) λ target. placed target)

  runs_migrate : Runs IsOld (migrate_legacy_snapshot f) (λ u. IsKept) IsKept
  unfolding migrate_legacy_snapshot
  runs_migrate =
      Runs-bind {mid = λ r e t. IsOld e t × (r ≡ some raw)} _ _
        (Runs-weaken _ (Runs-gets {pre = IsOld} _) (λ e t p. p) (λ r e t p. (p.0, p.1 ∙ p.0.0)))
        λ r.
          Runs-given _
            λ same. rw same (Runs-bind _ _ runs_read λ o. Runs-given _ λ which. migrates o which)

  loads_one : (o : Option String) → Keeps IsKept (load_one f o)
  unfolding load_one step ◌>>=◌
  loads_one none = Runs-pure none
  loads_one (some r) = record {
    from = λ c p. elim (Bool-cases (c.env.fails c.asked)) [
      | inl bad ↦ rw bad p
      | inr good ↦ rw good p
    ];
  }

  loads_each : (cores : List CoreType) → Keeps IsKept (load_each f cores)
  unfolding load_each
  loads_each [] = Runs-pure []
  loads_each (k ∷ ks) =
      Runs-bind {mid = λ r. IsKept} _ _ (Runs-weaken _ (Runs-gets _) (λ e t p. p) (λ r e t p. p.0))
        λ r. Runs-bind _ _ (loads_one r) λ o. Runs-bind _ _ (loads_each ks) λ rest. Runs-pure _

  loads : Runs IsOld (load_last_configs f) (λ l. IsKept) IsKept
  unfolding load_last_configs
  loads = Runs-bind _ _ runs_migrate λ u. loads_each all_cores

  -- Whatever step fails: when the snapshots have been loaded, a readable snapshot of an older Agent
  -- lies where it was, with that of its core as before, or that of its core is what it was, and the
  -- older Agent's where there was none.
  pub load_last_configs-legacy :
      (c : Conn Agent)
      → c.tables.legacy ≡ some raw
      → c.tables.snapshots core ≡ held
      → (((load_last_configs f c).1.tables.legacy ≡ some raw)
          × ((load_last_configs f c).1.tables.snapshots core ≡ held))
        ⊎ ((load_last_configs f c).1.tables.snapshots core ≡ some (unwrap_or held raw))
  load_last_configs-legacy c h before = whole _ _ _ (loads.from c (h, before))
    where
      whole :
          (r : Result (List (CoreType × PersistedConfig))) (e : Env) (t : Agent)
          → Holds (λ l. IsKept) IsKept r e t
          → IsKept e t
      whole (ok l) e t k = k
      whole (err x) e t k = k
