-- ===== src/DataUpgrade/Tests.antt =====
-- Starts of binaries over a log of the steps that have run.
use multi_proxy_panel.Prelude.{
  ◌≡◌, refl, false, List, [], ◌∷◌, ◌++◌, some, none, inl, inr, In, ◌==◌,
}
use multi_proxy_panel.Db.{ok, Conn, Env, Sql, statement, ◌>>=◌}
use multi_proxy_panel.DataUpgrade.Versions.{Text, parse, compare_versions}
use Prim.Native.Nat.{Ordering}
use multi_proxy_panel.DataUpgrade.{
  Meta, StepFn, UpgradeStep, purge_xray_data, refresh_singbox_builtin_template, due,
  get_system_version, set_system_version, on_rows, run_steps, run_versioned_upgrades,
}
use multi_proxy_panel.DataUpgrade.Pending.{pending, recorded_or_legacy}
use multi_proxy_panel.DataUpgrade.Progress.{Progress, Current, run_versioned_upgrades-Progress}
use multi_proxy_panel.DataUpgrade.Rerun.{rerun_keeps_rows, downgrade_reruns}

abbrev log_step : StepFn → Sql (List StepFn) (Unit {0})
log_step s = statement λ l. (ok tt, l ++ s ∷ [])

abbrev smooth : Env
smooth = record { fails = λ n. false; now = λ n. n; uuid = λ n. n }

-- the fifth request, in the second step, fails
abbrev rough : Env
rough = record { fails = λ n. n == 4; now = λ n. n; uuid = λ n. n }

-- "0.3.1" and "0.3.3"
abbrev v031 : Text
v031 = b'0' ∷ b'.' ∷ b'3' ∷ b'.' ∷ b'1' ∷ []

abbrev v033 : Text
v033 = b'0' ∷ b'.' ∷ b'3' ∷ b'.' ∷ b'3' ∷ []

abbrev legacy : Env → Conn (Meta (List StepFn))
legacy e = record { tables = record { version = none; rows = [] }; asked = 0; env = e }

orders_dotted_segments :
    (compare_versions (b'0' ∷ b'.' ∷ b'1' ∷ b'0' ∷ []) (b'0' ∷ b'.' ∷ b'9' ∷ []) ≡ Ordering.gt)
    × (compare_versions (b'1' ∷ b'-' ∷ b'a' ∷ []) (b'v' ∷ b'1' ∷ []) ≡ Ordering.lt)
unfolding compare_versions parse
orders_dotted_segments = (refl, refl)

upgrades_run :
    let d = (run_versioned_upgrades log_step v031 (legacy smooth)).1 in
    (d.tables.version ≡ some v031)
    × (d.tables.rows ≡ purge_xray_data ∷ refresh_singbox_builtin_template ∷ [])
unfolding run_versioned_upgrades run_steps get_system_version set_system_version on_rows due
    compare_versions parse ◌>>=◌
upgrades_run = (refl, refl)

interrupted :
    let d = (run_versioned_upgrades log_step v031 (legacy rough)).1 in
    (d.tables.version ≡ some (b'0' ∷ b'.' ∷ b'2' ∷ b'.' ∷ b'0' ∷ []))
    × (d.tables.rows ≡ purge_xray_data ∷ [])
unfolding run_versioned_upgrades run_steps get_system_version set_system_version on_rows due
    compare_versions parse ◌>>=◌
interrupted = (refl, refl)

run_versioned_upgrades-Progress_example :
    Progress log_step v031
      (legacy rough).tables
      (run_versioned_upgrades log_step v031 (legacy rough)).1.tables
    × Current v031
        (run_versioned_upgrades log_step v031 (legacy rough)).0
        (run_versioned_upgrades log_step v031 (legacy rough)).1.tables.version
run_versioned_upgrades-Progress_example =
    run_versioned_upgrades-Progress log_step v031 (legacy rough)

abbrev at_v033 : Conn (Meta (List StepFn))
at_v033 = record { tables = record { version = some v033; rows = [] }; asked = 0; env = smooth }

rerun_keeps_rows_example :
    (run_versioned_upgrades log_step v033 at_v033).1.tables.rows ≡ at_v033.tables.rows
rerun_keeps_rows_example = rerun_keeps_rows log_step v033 at_v033 refl

abbrev last_step : UpgradeStep
last_step = record { introduced_in = v033; run = refresh_singbox_builtin_template }

-- After a start of 0.3.1 the step of 0.3.3 is pending again.
downgrade_reruns_example : In last_step (
    pending
      (recorded_or_legacy (run_versioned_upgrades log_step v031 at_v033).1.tables.version)
      v033)
downgrade_reruns_example =
    downgrade_reruns log_step v031 v033 last_step at_v033 refl
      (unfold run_versioned_upgrades run_steps get_system_version set_system_version on_rows due
          compare_versions parse ◌>>=◌ in
        refl)
      (inr (inr (inr (inl refl)))) (unfold compare_versions parse in refl)
      (unfold compare_versions parse in refl)
