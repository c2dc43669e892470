-- ===== src/Agent/Push/Skipped.antt =====
-- A push of the version that is applied already.
use multi_proxy_panel.Prelude.{
  ◌≡◌, refl, ap, ◌∙◌, String, Bool, true, false, Option, some, List, find, is_some, Option-cases,
  Bool-cases, inl, inr, str_eq, eq_refl,
}
use multi_proxy_panel.Prelude.Text.{is_empty}
use multi_proxy_panel.Db.{Result, ok, err, Env, Conn, lift}
use multi_proxy_panel.Db.Runs.{
  Runs, Holds, Never, NoFail, Runs-pure, Runs-weaken, Runs-bind, Runs-given,
}
use multi_proxy_panel.Json.{Value}
use multi_proxy_panel.Protocol.{CoreType, parse_core}
use multi_proxy_panel.Agent.{Agent}
use multi_proxy_panel.Agent.Snapshots.{PersistedConfig, Codec}
use multi_proxy_panel.Agent.Snapshots.RoundTrip.{Is, migrated, decoded, of_core, runs_load_found}
use multi_proxy_panel.Agent.Cores.{Downloads}
use multi_proxy_panel.Agent.Push.{
  ConfigPush, core_type_from_i32, applied_already, apply_push, handle_config_push, version_in,
  is_version,
}

module _ (d : Downloads) (f : Codec) (parse : String → Option Value) where
  version_found :
      (core : CoreType) (l : List (CoreType × PersistedConfig)) (s : PersistedConfig)
      → find (of_core core) l ≡ some (core, s)
      → version_in core l ≡ some s.version
  version_found core l s e = rw (e, version_in) refl

  recognised :
      (core : CoreType) (push : ConfigPush) (a : Agent) (raw : String) (s : PersistedConfig)
      → push.restart_required ≡ false
      → is_empty push.config_version ≡ false
      → a.snapshots core ≡ some raw
      → f.from_slice raw ≡ some s
      → s.version ≡ push.config_version
      → Runs
          (Is a)
          (applied_already d f parse core push)
          (λ skip e t. Is (migrated f a) e t × (skip ≡ true))
          Never
  unfolding applied_already
  recognised core push a raw s r n e y v =
      rw (r, n)
        (Runs-bind _ _ (runs_load_found f a core raw s e y) λ l. Runs-given _ λ found.
          Runs-weaken _ (Runs-pure _)
            (λ x t p. (
              p,
              ap (λ o. is_version o push.config_version) (version_found core l s found)
                  ∙ ap (λ w. str_eq w push.config_version) v
                  ∙ eq_refl push.config_version,
            ))
            (λ b x t p. p))

  skipped :
      (core : CoreType) (push : ConfigPush) (config : Value) (a : Agent) (skip : Bool)
      → Runs
          (λ e t. Is a e t × (skip ≡ true))
          (apply_push d f parse core push config skip)
          (λ u. Is a)
          Never
  unfolding apply_push
  skipped core push config a skip = Runs-given _ λ e. rw e (Runs-pure tt)

  runs_skip :
      (push : ConfigPush) (config : Value) (a : Agent) (raw : String) (s : PersistedConfig)
      → push.restart_required ≡ false
      → is_empty push.config_version ≡ false
      → parse push.config_json ≡ some config
      → a.snapshots (core_type_from_i32 push.target_core) ≡ some raw
      → f.from_slice raw ≡ some s
      → s.version ≡ push.config_version
      → Runs (Is a) (handle_config_push d f parse push) (λ u. Is (migrated f a)) Never
  unfolding handle_config_push lift
  runs_skip push config a raw s r n j e y v =
      Runs-bind {mid = λ x. Is a} _ _ (rw j (record { from = λ c p. p })) λ x.
        Runs-bind _ _ (recognised (core_type_from_i32 push.target_core) push a raw s r n e y v)
          λ skip. skipped (core_type_from_i32 push.target_core) push x (migrated f a) skip

migrated_cores : (f : Codec) (a : Agent) → (migrated f a).cores ≡ a.cores
migrated_cores f a = elim (Option-cases (decoded f a.legacy)) [
  | inl n ↦ rw n refl
  | inr (s, d) ↦ elim (Option-cases (parse_core s.core_type)) [
    | inl n ↦ rw (d, n) refl
    | inr (k, e) ↦ elim (Bool-cases (is_some (a.snapshots k))) [
      | inl t ↦ rw (d, e, t) refl
      | inr n ↦ rw (d, e, n) refl
    ]
  ]
]

-- Where nothing fails, a push that asks for no restart and carries the version of the core's snapshot
-- is answered without an error and leaves the cores as they are, running or stopped.
pub handle_config_push-skips :
    (d : Downloads) (f : Codec) (parse : String → Option Value) (push : ConfigPush) (config : Value)
    (raw : String) (s : PersistedConfig) (c : Conn Agent)
    → NoFail c.env
    → push.restart_required ≡ false
    → is_empty push.config_version ≡ false
    → parse push.config_json ≡ some config
    → c.tables.snapshots (core_type_from_i32 push.target_core) ≡ some raw
    → f.from_slice raw ≡ some s
    → s.version ≡ push.config_version
    → ((handle_config_push d f parse push c).0 ≡ ok tt)
      × ((handle_config_push d f parse push c).1.tables.cores ≡ c.tables.cores)
handle_config_push-skips d f parse push config raw s c calm r n j e y v =
    whole _ _ _ ((runs_skip d f parse push config c.tables raw s r n j e y v).from c (calm, refl))
  where
    whole :
        (r : Result (Unit {0})) (e : Env) (t : Agent)
        → Holds (λ u. Is (migrated f c.tables)) Never r e t
        → (r ≡ ok tt) × (t.cores ≡ c.tables.cores)
    whole (ok u) e t h = (refl, ap (λ (x : Agent). x.cores) h.1 ∙ migrated_cores f c.tables)
    whole (err x) e t h = absurd h
