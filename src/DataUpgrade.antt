-- ===== src/DataUpgrade.antt =====
-- The data upgrades of crates/pp-db/src/upgrade.rs: steps gated on the recorded version.
-- `system_meta` is the recorded version alone; the other tables are a parameter, as are the bodies
-- of the steps, which do not touch `system_meta`. A text is the list of its bytes.
pub mod Versions
pub mod Pending
pub mod Steps
pub mod Progress
pub mod Rerun
mod Tests
use Prim.Native.Nat.{Ordering}
use multi_proxy_panel.Prelude.{
  ℕ, Bool, true, false, not, ◌&&◌, List, [], ◌∷◌, Option, none, some, if◌then◌else◌, unwrap_or,
}
use multi_proxy_panel.Db.{Result, ok, Conn, Sql, pure, statement, ◌>>=◌, ◌>>◌, done}
use Versions.{Text, compare_versions, is_lt, is_gt, text_eq}

pub record Meta (W : Type 0) : Type 0 where
  pub version : Option Text
  pub rows : W

pub data StepFn : Type 0 where
  purge_xray_data refresh_singbox_builtin_template : StepFn

pub record UpgradeStep : Type 0 where
  pub introduced_in : Text
  pub run : StepFn

-- "0.1.0"
abbrev pub legacy_baseline_version : Text
legacy_baseline_version = b'0' ∷ b'.' ∷ b'1' ∷ b'.' ∷ b'0' ∷ []

abbrev pub upgrade_steps : List UpgradeStep
upgrade_steps =
    record { introduced_in = b'0' ∷ b'.' ∷ b'2' ∷ b'.' ∷ b'0' ∷ []; run = purge_xray_data }
    ∷ record {
      introduced_in = b'0' ∷ b'.' ∷ b'3' ∷ b'.' ∷ b'1' ∷ [];
      run = refresh_singbox_builtin_template;
    }
    ∷ record {
      introduced_in = b'0' ∷ b'.' ∷ b'3' ∷ b'.' ∷ b'2' ∷ [];
      run = refresh_singbox_builtin_template;
    }
    ∷ record {
      introduced_in = b'0' ∷ b'.' ∷ b'3' ∷ b'.' ∷ b'3' ∷ [];
      run = refresh_singbox_builtin_template;
    }
    ∷ []

-- The guard of a step.
unfoldable pub due : Text → Text → UpgradeStep → Bool
due stored app s =
    is_lt (compare_versions stored s.introduced_in)
    && not (is_gt (compare_versions s.introduced_in app))

-- `current.as_deref() != Some(app_version)`, negated
abbrev pub is_current : Option Text → Text → Bool
is_current none app = false
is_current (some v) app = text_eq v app

module _ {W : Type 0} where
  unfoldable pub get_system_version : Sql (Meta W) (Option Text)
  get_system_version = statement λ m. (ok m.version, m)

  -- The row is looked up, and updated or inserted.
  unfoldable pub set_system_version : Text → Sql (Meta W) (Unit {0})
  unfolding get_system_version
  set_system_version v = do
    get_system_version >>= λ existing. statement λ m. (ok tt, record m { version = some v })

  -- A handler of the other tables.
  unfoldable pub on_rows : Sql W (Unit {0}) → Sql (Meta W) (Unit {0})
  on_rows m c =
      let (r, d) = m (record { tables = c.tables.rows; asked = c.asked; env = c.env }) in
      (r, record { tables = record c.tables { rows = d.tables }; asked = d.asked; env = d.env })

module _ {W : Type 0} (run : StepFn → Sql W (Unit {0})) where
  unfoldable pub run_steps : Text → Text → List UpgradeStep → Sql (Meta W) (Unit {0})
  run_steps stored app [] = done
  run_steps stored app (s ∷ ss) =
      let rest = run_steps stored app ss in
      if due stored app s
      then (do on_rows (run s.run); set_system_version s.introduced_in; rest)
      else rest

  unfoldable pub run_versioned_upgrades : Text → Sql (Meta W) (Unit {0})
  run_versioned_upgrades app_version = do
    found ← get_system_version
    run_steps (unwrap_or found legacy_baseline_version) app_version upgrade_steps
    current ← get_system_version
    if is_current current app_version then done else set_system_version app_version
