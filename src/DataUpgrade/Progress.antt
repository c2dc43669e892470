-- ===== src/DataUpgrade/Progress.antt =====
-- What a start leaves: which steps have run, and which are left to run.
use mathlib.Core.List.{append_assoc, append-nil}
use multi_proxy_panel.Prelude.{
  ◌≡◌, refl, sym, ap, ◌∙◌, subst, inl, inr, true, List, [], ◌∷◌, ◌++◌, Option, none, some,
  if◌then◌else◌, retain, Bool-cases,
}
use multi_proxy_panel.Db.{PanelError, Result, ok, err, Conn, Sql, ◌>>=◌, done, pure}
use multi_proxy_panel.Db.Post.{bind-post, read-post}
use multi_proxy_panel.DataUpgrade.Versions.{Text}
use multi_proxy_panel.DataUpgrade.{
  Meta, StepFn, UpgradeStep, upgrade_steps, due, get_system_version, set_system_version, run_steps,
  run_versioned_upgrades, is_current,
}
use multi_proxy_panel.DataUpgrade.Pending.{
  pending, recorded_or_legacy, resume, upgrade_steps-Ascending, retain-home, text_eq-eq,
}
use multi_proxy_panel.DataUpgrade.Steps.{
  set_system_version-post, version_after, last_step, Finished, HaveRun, begun_none, Recorded,
  run_steps-Recorded,
}

-- When the steps `before` are recorded, those behind them are pending.
pending_after :
    (app : Text) (old : Option Text) (before after : List UpgradeStep)
    → pending (recorded_or_legacy old) app ≡ before ++ after
    → pending (recorded_or_legacy (version_after old before)) app ≡ after
unfolding pending
pending_after app old [] after h = h
pending_after app old (t ∷ ss) after h =
    let (before, s, e, w) = last_step old t ss in
    rw w (
      resume (recorded_or_legacy old) app upgrade_steps before after s upgrade_steps-Ascending
        (h ∙ ap (λ l. l ++ after) e ∙ append_assoc before (s ∷ []) after))

abbrev pub Current : Text → Result (Unit {0}) → Option Text → Type 0
Current app (ok u) v = v ≡ some app
Current app (err e) v = Unit

module _ {W : Type 0} (run : StepFn → Sql W (Unit {0})) (app : Text) where
  -- Of the steps that were pending, leading ones have run with success and are no longer pending, at
  -- most one more has been begun, and exactly the others still are pending.
  abbrev pub Progress : Meta W → Meta W → Type 0
  Progress old new =
      (before : List UpgradeStep) × (after : List UpgradeStep) × (pending
          (recorded_or_legacy old.version) app
        ≡ before ++ after)
      × (pending (recorded_or_legacy new.version) app ≡ after)
      × HaveRun run before after old.rows new.rows

  Progress-of_Recorded :
      (old : Meta W) (x : Result (Unit {0}) × Conn (Meta W))
      → Recorded run (pending (recorded_or_legacy old.version) app) old x
      → Progress old x.1.tables
  Progress-of_Recorded old x (before, after, e, v, ran, f) =
      (before, after, e, rw v (pending_after app old.version before after e), ran)

  abbrev AllRun : Meta W → Meta W → Type 0
  AllRun old new = HaveRun run (pending (recorded_or_legacy old.version) app) [] old.rows new.rows

  all_run :
      (old : Meta W) (x : Result (Unit {0}) × Conn (Meta W))
      → x.0 ≡ ok tt
      → Recorded run (pending (recorded_or_legacy old.version) app) old x
      → AllRun old x.1.tables
  all_run old x returned (before, after, e, v, ran, f) =
      let none_left : after ≡ [] = subst (λ r. Finished run r after) returned f in
      let all : pending (recorded_or_legacy old.version) app ≡ before =
        e ∙ ap (λ l. before ++ l) none_left ∙ append-nil before in
      rw all (subst (λ l. HaveRun run before l old.rows x.1.tables.rows) none_left ran)

  Progress-home : (old new : Meta W) → new.version ≡ some app → AllRun old new → Progress old new
  unfolding pending
  Progress-home old new v ran = (
    pending (recorded_or_legacy old.version) app,
    [],
    sym (append-nil _),
    rw v (retain-home app upgrade_steps),
    ran,
  )

  module _ (c : Conn (Meta W)) where
    abbrev Good : Result (Unit {0}) × Conn (Meta W) → Type 0
    Good x = Progress c.tables x.1.tables × Current app x.0 x.1.tables.version

    unchanged :
        (d : Conn (Meta W)) (e : PanelError) (x : Conn (Meta W))
        → Progress c.tables d.tables
        → x.tables ≡ d.tables
        → Good (err e, x)
    unchanged d e x p same = (subst (λ m. Progress c.tables m) (sym same) p, tt)

    home :
        (d x : Conn (Meta W))
        → AllRun c.tables d.tables
        → x.tables.rows ≡ d.tables.rows
        → x.tables.version ≡ some app
        → Good (ok tt, x)
    home d x ran rows v = (
      Progress-home c.tables x.tables v (
          subst
            (λ r.
              HaveRun run (pending (recorded_or_legacy c.tables.version) app) [] c.tables.rows r)
            (sym rows) ran),
      v,
    )

    current_eq : (v : Option Text) → is_current v app ≡ true → v ≡ some app
    current_eq none h = cc
    current_eq (some v) h = ap some (text_eq-eq v app h)

    finish :
        (d : Conn (Meta W))
        → Progress c.tables d.tables
        → AllRun c.tables d.tables
        → Good (
            (get_system_version >>= λ current.
            if is_current current app then done else set_system_version app)
              d)
    unfolding get_system_version
    finish d p ran =
        read-post Good (λ (m : Meta W). m.version) _ d (λ e x same. unchanged d e x p same)
          (λ x same. elim (Bool-cases (is_current d.tables.version app)) [
            | inl e ↦
                unfold pure in
                rw e (
                  home d x ran (ap (λ (m : Meta W). m.rows) same)
                    (ap (λ (m : Meta W). m.version) same ∙ current_eq d.tables.version e))
            | inr e ↦ rw e (
                set_system_version-post Good app x (λ e y h. unchanged d e y p (h ∙ same))
                  (λ u y h.
                    home d y ran (ap (λ (m : Meta W). m.rows) h ∙ ap (λ (m : Meta W). m.rows) same)
                      (ap (λ (m : Meta W). m.version) h)))
          ])

    steps :
        (x : Conn (Meta W))
        → x.tables ≡ c.tables
        → Recorded run
            (pending (recorded_or_legacy c.tables.version) app)
            c.tables
            (run_steps run (recorded_or_legacy c.tables.version) app upgrade_steps x)
    unfolding pending
    steps x same =
        let stored = recorded_or_legacy c.tables.version in
        subst
          (λ m.
            Recorded run (retain (due stored app) upgrade_steps) m
              (run_steps run stored app upgrade_steps x))
          same (run_steps-Recorded run stored app upgrade_steps x)

    -- Whatever statements of a start fail: leading steps of those pending have run in their order, each
    -- with success, and the recorded version makes exactly these no longer pending; of the others the
    -- first at most has been begun, and the next start has them all to run. A start that succeeds has
    -- recorded the version of the binary, and all steps have run.
    pub run_versioned_upgrades-Progress :
        Progress c.tables (run_versioned_upgrades run app c).1.tables
        × Current app
            (run_versioned_upgrades run app c).0
            (run_versioned_upgrades run app c).1.tables.version
    unfolding run_versioned_upgrades get_system_version
    run_versioned_upgrades-Progress =
        read-post Good (λ (m : Meta W). m.version) _ c
          (λ e x same. unchanged c e x ([], _, refl, refl, begun_none run _ _) same)
          (λ x same.
            bind-post Good (run_steps run (recorded_or_legacy c.tables.version) app upgrade_steps) _
              x
              (λ e y h.
                let r =
                  subst
                    (λ z.
                      Recorded run (pending (recorded_or_legacy c.tables.version) app) c.tables z)
                    h (steps x same) in
                (Progress-of_Recorded c.tables (err e, y) r, tt))
              (λ u y h.
                let r =
                  subst
                    (λ z.
                      Recorded run (pending (recorded_or_legacy c.tables.version) app) c.tables z)
                    h (steps x same) in
                finish y (Progress-of_Recorded c.tables (ok u, y) r)
                  (all_run c.tables (ok u, y) refl r)))
