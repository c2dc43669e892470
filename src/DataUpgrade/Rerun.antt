-- ===== src/DataUpgrade/Rerun.antt =====
-- What the next starts of a binary find: nothing to do, or the steps that an older binary uncovered.
use Prim.Native.Nat.{Ordering}
use multi_proxy_panel.Prelude.{
  ◌≡◌, refl, ap, subst, ◌∙◌, false, List, [], ◌∷◌, some, arith, In, In-retain, Bool-cases, inl, inr,
  if◌then◌else◌,
}
use multi_proxy_panel.Db.{Result, ok, Conn, Sql, done, ◌>>=◌}
use multi_proxy_panel.Db.Post.{read-post}
use multi_proxy_panel.DataUpgrade.Versions.{Text, compare_versions, is_gt}
use multi_proxy_panel.DataUpgrade.{
  Meta, StepFn, UpgradeStep, upgrade_steps, due, get_system_version, set_system_version, run_steps,
  run_versioned_upgrades, is_current,
}
use multi_proxy_panel.DataUpgrade.Pending.{pending, recorded_or_legacy, not_due_at_home}
use multi_proxy_panel.DataUpgrade.Steps.{set_system_version-post}
use multi_proxy_panel.DataUpgrade.Progress.{run_versioned_upgrades-Progress, Current}

module _ {W : Type 0} (run : StepFn → Sql W (Unit {0})) where
  run_steps-home : (app : Text) (ss : List UpgradeStep) → run_steps run app app ss ≡ done
  unfolding run_steps
  run_steps-home app [] = refl
  run_steps-home app (s ∷ ss) = rw (not_due_at_home app s) (run_steps-home app ss)

  -- A start of the binary whose version is recorded leaves the other tables alone, whatever
  -- statements fail.
  pub rerun_keeps_rows :
      (app : Text) (c : Conn (Meta W))
      → c.tables.version ≡ some app
      → (run_versioned_upgrades run app c).1.tables.rows ≡ c.tables.rows
  unfolding run_versioned_upgrades get_system_version ◌>>=◌
  rerun_keeps_rows app c h =
      read-post Same (λ (m : Meta W). m.version) _ c (λ e x same. rows same)
        (λ x same. rw h (rw (run_steps-home app upgrade_steps) (last x (rows same))))
    where
      Same : Result (Unit {0}) × Conn (Meta W) → Type 0
      Same x = x.1.tables.rows ≡ c.tables.rows

      rows : {m : Meta W} → m ≡ c.tables → m.rows ≡ c.tables.rows
      rows e = ap (λ (m : Meta W). m.rows) e

      last :
          (x : Conn (Meta W))
          → x.tables.rows ≡ c.tables.rows
          → Same (
              (done >>= λ u. get_system_version >>= λ current.
              if is_current current app then done else set_system_version app)
                x)
      last x e =
          read-post Same (λ (m : Meta W). m.version) _ x
            (λ p y same. ap (λ (m : Meta W). m.rows) same ∙ e)
            (λ y same. elim (Bool-cases (is_current x.tables.version app)) [
              | inl t ↦ rw t (ap (λ (m : Meta W). m.rows) same ∙ e)
              | inr t ↦ rw t (
                  set_system_version-post Same app y
                    (λ p z h. ap (λ (m : Meta W). m.rows) (h ∙ same) ∙ e)
                    (λ u z h. ap (λ (m : Meta W). m.rows) h ∙ ap (λ (m : Meta W). m.rows) same ∙ e))
            ])

  -- An older binary that starts in between makes the steps newer than it pending again, though they
  -- have run: a step may run twice.
  pub downgrade_reruns :
      (old app : Text) (s : UpgradeStep) (c : Conn (Meta W))
      → c.tables.version ≡ some app
      → (run_versioned_upgrades run old c).0 ≡ ok tt
      → In s upgrade_steps
      → compare_versions old s.introduced_in ≡ Ordering.lt
      → is_gt (compare_versions s.introduced_in app) ≡ false
      → In s (pending (recorded_or_legacy (run_versioned_upgrades run old c).1.tables.version) app)
  unfolding pending due
  downgrade_reruns old app s c v r m lt le =
      let p = run_versioned_upgrades-Progress run old c in
      let w : (run_versioned_upgrades run old c).1.tables.version ≡ some old =
        subst (λ x. Current old x (run_versioned_upgrades run old c).1.tables.version) r p.1 in
      rw w (In-retain (due old app) upgrade_steps m (ground arith))
