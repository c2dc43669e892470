-- ===== src/Agent/Push/Build.antt =====
-- The binary of a core is not lost when its build is replaced.
use multi_proxy_panel.Prelude.{
  ◌≡◌, refl, sym, ap, ◌∙◌, String, Bool, true, false, Option, none, some, is_some, if◌then◌else◌,
  inl, inr, ◌⊎◌, Bool-cases, str_eq, false≢true,
}
use multi_proxy_panel.Db.{Result, ok, err, Env, Conn, raise, attempt, done, ◌>>=◌}
use multi_proxy_panel.Db.Runs.{
  Pred, Runs, Holds, Runs-pure, Runs-weaken, Runs-bind, Runs-gets, Runs-attempt, Runs-given,
}
use multi_proxy_panel.Protocol.{CoreType}
use multi_proxy_panel.Agent.{Agent, with_core, step, same_core_refl}
use multi_proxy_panel.Agent.Runs.{Runs-step, Runs-ignored}
use multi_proxy_panel.Agent.Cores.{Downloads, ensure_core_binary, install}
use multi_proxy_panel.Agent.Push.{
  finish_build, replace_build, build_after, ensure_core_build, given_version, put_aside,
}

module _ (d : Downloads) (core : CoreType) (version old : String) where
  abbrev IsOld : Pred Agent
  IsOld e a = (a.cores core).binary ≡ some old

  abbrev IsFetched : Pred Agent
  IsFetched e a = (a.cores core).binary ≡ some (d.fetched core (given_version version))

  abbrev IsAside : Pred Agent
  IsAside e a = ((a.cores core).binary ≡ none) × ((a.cores core).backup ≡ some old)

  abbrev IsSaved : Pred Agent
  IsSaved e a = (a.cores core).backup ≡ some old

  -- The old or the new binary is in place, or the old one lies in the backup.
  abbrev pub IsKept : Pred Agent
  IsKept e a =
      ((a.cores core).binary ≡ some old)
      ⊎ ((a.cores core).binary ≡ some (d.fetched core (given_version version)))
      ⊎ ((a.cores core).backup ≡ some old)

  runs_install : Runs IsAside (install d core (given_version version)) (λ u. IsFetched) IsSaved
  unfolding install
  runs_install = record {
    from = λ c p. elim (Bool-cases (c.env.fails c.asked)) [
      | inl e ↦ rw (e, same_core_refl core) p.1
      | inr e ↦ rw (e, same_core_refl core) refl
    ];
  }

  ensure_from :
      (o : Option String)
      → o ≡ none
      → Runs IsAside
          (if is_some o then done else install d core (given_version version))
          (λ u. IsFetched)
          IsSaved
  ensure_from none e = runs_install
  ensure_from (some b) e = absurd (true≢none e)
    where
      true≢none : some b ≡ none → ⊥
      true≢none h = false≢true (sym (ap is_some h))

  runs_ensure :
      Runs IsAside (ensure_core_binary d core (given_version version)) (λ u. IsFetched) IsSaved
  unfolding ensure_core_binary
  runs_ensure =
      Runs-bind {mid = λ o e t. IsAside e t × (o ≡ none)} _ _
        (Runs-weaken _ (Runs-gets {pre = IsAside} _) (λ e t p. p) (λ o e t p. (p.0, p.1 ∙ p.0.0)))
        λ o. Runs-given _ λ e. ensure_from o e

  finish :
      (expected : String) (r : Result (Unit {0}))
      → Runs
          (Holds (λ u. IsFetched) IsSaved r)
          (finish_build d core expected true r)
          (λ u. IsKept)
          IsKept
  unfolding finish_build raise
  finish expected (ok u) =
      Runs-bind {mid = λ v. IsFetched} _ _
        (Runs-ignored _ (λ e t p. p) (λ e t p. rw (same_core_refl core) p))
        λ v. Runs-step _ (λ e t p. inr (inl p)) (λ e t p. inr (inl (rw (same_core_refl core) p)))
  finish expected (err x) =
      Runs-bind {mid = λ v. IsKept} _ _
        (Runs-ignored _ (λ e t p. inr (inr p)) (λ e t p. inl (rw (same_core_refl core) p)))
        λ v. record { from = λ c p. p }

  aside : Runs IsOld (step (with_core core put_aside)) (λ u. IsAside) IsKept
  aside =
      Runs-step _ (λ e t p. inl p)
        (λ e t p. (rw (same_core_refl core) refl, rw (same_core_refl core) p))

  replaced :
      (expected : String) (o : Option String)
      → o ≡ some old
      → Runs IsOld
          ((if is_some o then step (with_core core put_aside) else done) >>= λ u.
            attempt (ensure_core_binary d core (given_version version)) >>= λ installed.
            finish_build d core expected (is_some o) installed)
          (λ u. IsKept)
          IsKept
  replaced expected none e = absurd (false≢true (ap is_some e))
  replaced expected (some b) e =
      Runs-bind _ _ aside
        λ u. Runs-bind _ _ (Runs-attempt _ runs_ensure) λ installed. finish expected installed

  runs_replace :
      (expected : String) → Runs IsOld (replace_build d core version expected) (λ u. IsKept) IsKept
  unfolding replace_build
  runs_replace expected =
      Runs-bind {mid = λ o e t. IsOld e t × (o ≡ some old)} _ _
        (Runs-weaken _ (Runs-gets {pre = IsOld} _) (λ e t p. p) (λ o e t p. (p.0, p.1 ∙ p.0)))
        λ o. Runs-given _ λ e. replaced expected o e

  build :
      (expected current : String) (known : Bool)
      → Runs IsOld (build_after d core version expected known current) (λ u. IsKept) IsKept
  build expected current false = Runs-weaken _ (Runs-pure tt) (λ e t p. inl p) (λ u e t p. p)
  build expected current true = elim (Bool-cases (str_eq current expected)) [
    | inl t ↦ rw t (Runs-weaken _ (Runs-pure tt) (λ e t p. inl p) (λ u e t p. p))
    | inr n ↦ rw n (runs_replace expected)
  ]

  pub runs_build :
      (build_id : String)
      → Runs IsOld (ensure_core_build d core version build_id) (λ u. IsKept) IsKept
  unfolding ensure_core_build
  runs_build build_id =
      Runs-bind {mid = λ b. IsOld} _ _ (Runs-weaken _ (Runs-gets _) (λ e t p. p) (λ b e t p. p.0))
        λ known.
          Runs-bind {mid = λ b. IsOld} _ _
            (Runs-weaken _ (Runs-gets _) (λ e t p. p) (λ b e t p. p.0)) λ marker. build _ _ known

-- Whatever step fails while the build of a core is replaced: its old binary or the new one is in
-- place, or the old one lies in the backup.
pub ensure_core_build-IsKept :
    (d : Downloads) (core : CoreType) (version build_id old : String) (c : Conn Agent)
    → (c.tables.cores core).binary ≡ some old
    → IsKept d core version old c.env (ensure_core_build d core version build_id c).1.tables
ensure_core_build-IsKept d core version build_id old c h =
    whole _ _ _ ((runs_build d core version old build_id).from c h)
  where
    whole :
        (r : Result (Unit {0})) (e : Env) (t : Agent)
        → Holds (λ u. IsKept d core version old) (IsKept d core version old) r e t
        → IsKept d core version old c.env t
    whole (ok u) e t k = k
    whole (err x) e t k = k
