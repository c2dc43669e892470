-- ===== src/CliUpgrade/Tests.antt =====
-- Runs of an upgrade.
use Prim.Native.Nat.{Ordering}
use multi_proxy_panel.Prelude.{
  ℕ, ◌%◌, leb, Bool, ◌≡◌, refl, String, str_eq, true, false, [], ◌∷◌, none, some, ◌==◌,
  if◌then◌else◌,
}
use multi_proxy_panel.Db.{io, Result, ok, err, Conn, ◌>>=◌}
use multi_proxy_panel.CliUpgrade.Service.{
  wait_rounds, systemd_wait_stable, three_in_a_row, answers, systemd_wait_stable-three_in_a_row,
}
use multi_proxy_panel.CliUpgrade.{
  copied, Machine, Left, Component, Outcome, rolled_back, succeeded, step, stage, put_binary,
  put_web, backup_binary, backup_web, remove_binary, remove_web, restore_binary, restore_web,
  systemd_stop, restart_and_wait, is_active, when_running, both_ok, recover, same_version,
  installed_version, replace_web, replace_and_verify, recovered, conclude, install, plan_upgrade,
  by_order, proceed, skip,
}
use multi_proxy_panel.CliUpgrade.Transaction.{install-rolled_back}

abbrev left : Left
left = record { file = λ n. none; tree = λ n. none; unit = λ n. false }

abbrev hub : Component
hub = record { has_unit = true; with_web = true }

abbrev machine : Machine
machine = record {
  binary = some "v1";
  web = some (("index.html", "one") ∷ []);
  binary_backup = none;
  web_backup = none;
  active = true;
  stages = [];
}

-- The `n`-th step fails.
abbrev start : ℕ → Conn Machine
start n = record {
  tables = machine;
  asked = 0;
  env = record { fails = λ i. i == n; now = λ i. 0; uuid = λ i. i };
}

abbrev compare : String → String → Result Ordering
compare a b = if str_eq a b then ok Ordering.eq else ok Ordering.lt

abbrev run : String → ℕ → Result Outcome × Conn Machine
run new n =
    install left compare (λ b. ok b) hub "v2" new (some (("index.html", "two") ∷ [])) (start n)

good_run : ((run "v2" 100).0 ≡ ok succeeded) × ((run "v2" 100).1.tables.binary ≡ some "v2")
unfolding install backup_binary backup_web is_active when_running systemd_stop stage step
    replace_and_verify replace_web put_binary put_web remove_web copied installed_version
    same_version restart_and_wait conclude ◌>>=◌
good_run = (refl, refl)

-- The new binary prints another version than the release's.
bad_run : (run "v3" 100).0 ≡ ok rolled_back
unfolding install backup_binary backup_web is_active when_running systemd_stop stage step
    replace_and_verify replace_web put_binary put_web remove_web remove_binary copied
    installed_version same_version restart_and_wait conclude recover restore_binary restore_web
    both_ok recovered ◌>>=◌
bad_run = refl

-- A status file that cannot be written after the stop leaves the service stopped.
stopped_run : ((run "v2" 4).0 ≡ err io) × ((run "v2" 4).1.tables.active ≡ false)
unfolding install backup_binary backup_web is_active when_running systemd_stop stage step copied
    ◌>>=◌
stopped_run = (refl, refl)

install-rolled_back_example :
    ((run "v3" 100).1.tables.binary ≡ some "v1")
    × ((run "v3" 100).1.tables.web ≡ some (("index.html", "one") ∷ []))
    × ((run "v3" 100).1.tables.active ≡ true)
install-rolled_back_example =
    install-rolled_back left hub compare (λ b. ok b) "v2" "v3" (some (("index.html", "two") ∷ []))
      (start 100) refl bad_run

plan_run :
    (plan_upgrade compare (some "v2") "v2" ≡ ok skip)
    × (plan_upgrade compare none "v2" ≡ ok proceed)
unfolding plan_upgrade by_order
plan_run = (refl, refl)

abbrev late : ℕ → Bool
late n = leb 5 n

systemd_wait_stable-three_in_a_row_example :
    systemd_wait_stable late ≡ three_in_a_row (answers late 30 0)
systemd_wait_stable-three_in_a_row_example = systemd_wait_stable-three_in_a_row late

-- A unit that is active at every other check is not stable.
flapping_run : systemd_wait_stable (λ n. n % 2 == 0) ≡ false
unfolding systemd_wait_stable wait_rounds
flapping_run = refl
