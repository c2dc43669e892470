-- ===== src/Agent/Snapshots/RoundTrip.antt =====
-- What is saved is loaded again.
use multi_proxy_panel.Prelude.{
  ◌≡◌, refl, sym, ap, ◌∙◌, String, Bool, false, List, [], ◌∷◌, Option, none, some, is_some, find,
  if◌then◌else◌, Bool-cases, Option-cases, inl, inr, false≢true,
}
use multi_proxy_panel.Db.{Result, ok, err, Env, Conn, Sql, gets, ◌>>=◌, ◌>>◌}
use multi_proxy_panel.Db.Runs.{
  Pred, Runs, Holds, Never, NoFail, Runs-pure, Runs-weaken, Runs-bind, Runs-given,
}
use multi_proxy_panel.Json.{Value}
use multi_proxy_panel.Protocol.{CoreType, sing_box, mihomo, same_core, parse_core}
use multi_proxy_panel.Agent.{Agent, at_core, step, ignored, same_core_refl}
use multi_proxy_panel.Agent.Snapshots.{
  PersistedConfig, Codec, snapshot_of, save_last_config, load_one, drop_legacy, move_legacy,
  migrate_to, migrate_read, migrate_legacy_snapshot, found_for, load_each, all_cores,
  load_last_configs,
}

-- Nothing fails, and this is the state.
abbrev pub Is : Agent → Pred Agent
Is a e t = NoFail e × (t ≡ a)

-- A part whose answer is known.
then_known :
    {A B : Type 0} {pre mid : Pred Agent} {post : B → Pred Agent} (m : Sql Agent A)
    (k : A → Sql Agent B) (x : A)
    → Runs pre m (λ a e t. mid e t × (a ≡ x)) Never
    → Runs mid (k x) post Never
    → Runs pre (m >>= k) post Never
then_known m k x first second = Runs-bind m k first λ a. Runs-given (k a) λ same. rw same second

runs_gets :
    {A : Type 0} (a : Agent) (g : Agent → A)
    → Runs (Is a) (gets g) (λ x e t. Is a e t × (x ≡ g a)) Never
unfolding ◌>>=◌
runs_gets a g = record { from = λ c p. (p, ap g p.1) }

module _ (f : Codec) where
  abbrev pub decoded : Option String → Option PersistedConfig
  decoded none = none
  decoded (some raw) = f.from_slice raw

  abbrev moved_to : Agent → Option CoreType → Agent
  moved_to a none = drop_legacy a
  moved_to a (some core) = if is_some (a.snapshots core) then drop_legacy a else move_legacy core a

  abbrev moved_by : Agent → Option PersistedConfig → Agent
  moved_by a none = a
  moved_by a (some s) = moved_to a (parse_core s.core_type)

  -- The state after the migration of the old file.
  abbrev pub migrated : Agent → Agent
  migrated a = moved_by a (decoded a.legacy)

  -- The snapshots of these cores that can be read.
  abbrev pub stored : Agent → List CoreType → List (CoreType × PersistedConfig)
  stored a [] = []
  stored a (core ∷ cores) = found_for core (decoded (a.snapshots core)) (stored a cores)

  runs_step : (a : Agent) (g : Agent → Agent) → Runs (Is a) (step g) (λ u. Is (g a)) Never
  unfolding step
  runs_step a g = record { from = λ c p. rw (p.0 c.asked) (p.0, ap g p.1) }

  runs_ignored :
      (a : Agent) (g : Agent → Agent) → Runs (Is a) (ignored (step g)) (λ u. Is (g a)) Never
  unfolding step ◌>>=◌
  runs_ignored a g = record { from = λ c p. rw (p.0 c.asked) (p.0, ap g p.1) }

  runs_load_one :
      (a : Agent) (raw : Option String)
      → Runs (Is a) (load_one f raw) (λ o e t. Is a e t × (o ≡ decoded raw)) Never
  unfolding load_one step ◌>>=◌
  runs_load_one a none = record { from = λ c p. (p, refl) }
  runs_load_one a (some raw) = record { from = λ c p. rw (p.0 c.asked) ((p.0, p.1), refl) }

  runs_moved :
      (a : Agent) (core : Option CoreType)
      → Runs (Is a) (migrate_to f core) (λ u. Is (moved_to a core)) Never
  unfolding migrate_to
  runs_moved a none = runs_ignored a (drop_legacy)
  runs_moved a (some core) =
      then_known _ _ (a.snapshots core) (runs_gets a _)
        (elim (Bool-cases (is_some (a.snapshots core))) [
          | inl t ↦ rw t (runs_ignored a (drop_legacy))
          | inr n ↦ rw n (runs_ignored a (move_legacy core))
        ])

  runs_migrate_read :
      (a : Agent) (o : Option PersistedConfig)
      → Runs (Is a) (migrate_read f o) (λ u. Is (moved_by a o)) Never
  unfolding migrate_read
  runs_migrate_read a none = Runs-pure tt
  runs_migrate_read a (some s) = runs_moved a (parse_core s.core_type)

  runs_migrate : (a : Agent) → Runs (Is a) (migrate_legacy_snapshot f) (λ u. Is (migrated a)) Never
  unfolding migrate_legacy_snapshot
  runs_migrate a = then_known _ _ a.legacy (runs_gets a _) (
      then_known _ _ (decoded a.legacy) (runs_load_one a a.legacy)
        (runs_migrate_read a (decoded a.legacy)))

  runs_load_each :
      (a : Agent) (cores : List CoreType)
      → Runs (Is a) (load_each f cores) (λ l e t. Is a e t × (l ≡ stored a cores)) Never
  unfolding load_each
  runs_load_each a [] = Runs-weaken _ (Runs-pure _) (λ e t p. (p, refl)) (λ l e t p. p)
  runs_load_each a (core ∷ cores) = then_known _ _ (a.snapshots core) (runs_gets a _) (
      then_known _ _ (decoded (a.snapshots core)) (runs_load_one a _) (
        then_known _ _ (stored a cores) (runs_load_each a cores)
          (Runs-weaken _ (Runs-pure _) (λ e t p. (p, refl)) (λ l e t p. p))))

  pub runs_load :
      (a : Agent)
      → Runs
          (Is a)
          (load_last_configs f)
          (λ l e t. Is (migrated a) e t × (l ≡ stored (migrated a) all_cores))
          Never
  unfolding load_last_configs
  runs_load a = Runs-bind _ _ (runs_migrate a) λ u. runs_load_each (migrated a) all_cores

-- A snapshot that is there is not replaced by the old file.
still_there :
    (f : Codec) (a : Agent) (core : CoreType) (raw : String) (k : Option CoreType)
    → a.snapshots core ≡ some raw
    → (moved_to f a k).snapshots core ≡ some raw
still_there f a core raw none e = e
still_there f a core raw (some k) e = elim (Bool-cases (is_some (a.snapshots k))) [
  | inl t ↦ rw t e
  | inr n ↦ rw n (other core k e n)
]
  where
    other :
        (core k : CoreType)
        → a.snapshots core ≡ some raw
        → is_some (a.snapshots k) ≡ false
        → at_core k (λ o. a.legacy) a.snapshots core ≡ some raw
    other sing_box mihomo e n = e
    other mihomo sing_box e n = e
    other sing_box sing_box e n = absurd (false≢true (sym n ∙ ap is_some e))
    other mihomo mihomo e n = absurd (false≢true (sym n ∙ ap is_some e))

migrated_still :
    (f : Codec) (a : Agent) (core : CoreType) (raw : String)
    → a.snapshots core ≡ some raw
    → (migrated f a).snapshots core ≡ some raw
migrated_still f a core raw e = elim (Option-cases (decoded f a.legacy)) [
  | inl n ↦ rw n e
  | inr (s, d) ↦ rw d (still_there f a core raw (parse_core s.core_type) e)
]

abbrev pub of_core : CoreType → CoreType × PersistedConfig → Bool
of_core core s = same_core s.0 core

stored_found :
    (f : Codec) (a : Agent) (core : CoreType) (raw : String) (s : PersistedConfig)
    → a.snapshots core ≡ some raw
    → f.from_slice raw ≡ some s
    → find (of_core core) (stored f a all_cores) ≡ some (core, s)
stored_found f a sing_box raw s e d = rw (e, d) refl
stored_found f a mihomo raw s e d = elim (Option-cases (decoded f (a.snapshots sing_box))) [
  | inl n ↦ rw (n, e, d) refl
  | inr (z, y) ↦ rw (y, e, d) refl
]

-- Where nothing fails, a readable snapshot is among those loaded.
pub runs_load_found :
    (f : Codec) (a : Agent) (core : CoreType) (raw : String) (s : PersistedConfig)
    → a.snapshots core ≡ some raw
    → f.from_slice raw ≡ some s
    → Runs
        (Is a)
        (load_last_configs f)
        (λ l e t. Is (migrated f a) e t × (find (of_core core) l ≡ some (core, s)))
        Never
runs_load_found f a core raw s e d =
    Runs-weaken _ (runs_load f a) (λ x t p. p)
      (λ l x t p.
        (p.0, rw p.1 (stored_found f (migrated f a) core raw s (migrated_still f a core raw e) d)))

abbrev saved : Codec → CoreType → PersistedConfig → Agent → Agent
saved f core s a = record a { snapshots = at_core core (λ o. some (f.to_vec s)) a.snapshots }

runs_save :
    (f : Codec) (a : Agent) (core : CoreType) (config : Value) (version : String)
    → Runs
        (Is a)
        (save_last_config f core config version)
        (λ u. Is (saved f core (snapshot_of core config version) a))
        Never
unfolding save_last_config
runs_save f a core config version = Runs-bind _ _ (runs_step f a (λ b. b)) λ u.
    Runs-bind _ _ (runs_step f a _)
      λ v. runs_step f (saved f core (snapshot_of core config version) a) (λ b. b)

abbrev pub snapshot_in :
    CoreType → Result (List (CoreType × PersistedConfig)) → Option (CoreType × PersistedConfig)
snapshot_in core (ok l) = find (of_core core) l
snapshot_in core (err e) = none

-- Where nothing fails and the JSON of the snapshot is read back, loading after saving finds for the
-- core the config and the version that were saved, whatever was there before.
pub load_last_configs-save :
    (f : Codec) (core : CoreType) (config : Value) (version : String) (c : Conn Agent)
    → NoFail c.env
    → f.from_slice (f.to_vec (snapshot_of core config version))
      ≡ some (snapshot_of core config version)
    → snapshot_in core ((save_last_config f core config version >> load_last_configs f) c).0
      ≡ some (core, snapshot_of core config version)
load_last_configs-save f core config version c calm read = whole _ _ _ (both.from c (calm, refl))
  where
    both :
        Runs
          (Is c.tables)
          (save_last_config f core config version >> load_last_configs f)
          (λ l e t.
            Is (migrated f (saved f core (snapshot_of core config version) c.tables)) e t
            × (find (of_core core) l ≡ some (core, snapshot_of core config version)))
          Never
    both =
        Runs-bind _ _ (runs_save f c.tables core config version)
          λ u. runs_load_found f _ core _ _ (rw (same_core_refl core) refl) read

    whole :
        (r : Result (List (CoreType × PersistedConfig))) (e : Env) (t : Agent)
        → Holds
            (λ l e t.
              Is (migrated f (saved f core (snapshot_of core config version) c.tables)) e t
              × (find (of_core core) l ≡ some (core, snapshot_of core config version)))
            Never
            r
            e
            t
        → snapshot_in core r ≡ some (core, snapshot_of core config version)
    whole (ok l) e t h = h.1
    whole (err x) e t h = absurd h
