-- ===== src/Agent/Snapshots.antt =====
-- The snapshots of the last applied configs: crates/pp-agent/src/persist.rs. Reading and writing the
-- JSON of a snapshot are arguments.
pub mod Kept
pub mod RoundTrip
use multi_proxy_panel.Prelude.{
  String, Bool, true, false, List, [], ◌∷◌, Option, none, some, is_some, if◌then◌else◌,
}
use multi_proxy_panel.Db.{Result, ok, err, Sql, pure, gets, attempt, done, ◌>>=◌, ◌>>◌}
use multi_proxy_panel.Json.{Value}
use multi_proxy_panel.Protocol.{CoreType, sing_box, mihomo, core_name, parse_core}
use multi_proxy_panel.Agent.{Agent, at_core, step, ignored}

pub record PersistedConfig : Type 0 where
  pub core_type : String
  pub config : Value
  pub version : String

-- `serde_json::to_vec_pretty` and `from_slice`.
pub record Codec : Type 0 where
  pub to_vec : PersistedConfig → String
  pub from_slice : String → Option PersistedConfig

abbrev pub snapshot_of : CoreType → Value → String → PersistedConfig
snapshot_of core config version = record {
  core_type = core_name core;
  config = config;
  version = version;
}

abbrev pub drop_legacy : Agent → Agent
drop_legacy a = record a { legacy = none }

abbrev pub move_legacy : CoreType → Agent → Agent
move_legacy core a = record a {
  snapshots = at_core core (λ o. a.legacy) a.snapshots;
  legacy = none;
}

abbrev pub found_for :
    CoreType
    → Option PersistedConfig
    → List (CoreType × PersistedConfig)
    → List (CoreType × PersistedConfig)
found_for core none rest = rest
found_for core (some s) rest = (core, s) ∷ rest

abbrev pub all_cores : List CoreType
all_cores = sing_box ∷ mihomo ∷ []

module _ (f : Codec) where
  -- The temporary file is written and renamed, then the mode of the new file is set.
  unfoldable pub save_last_config : CoreType → Value → String → Sql Agent (Unit {0})
  unfolding core_name
  save_last_config core config version = do
    step (λ a. a)
    step (λ a. record a {
      snapshots = at_core core (λ o. some (f.to_vec (snapshot_of core config version))) a.snapshots;
    })
    step (λ a. a)

  abbrev read_back : Option String → Result (Unit {0}) → Option PersistedConfig
  read_back none r = none
  read_back (some raw) (ok u) = f.from_slice raw
  read_back (some raw) (err e) = none

  -- A file that cannot be read counts as none.
  unfoldable pub load_one : Option String → Sql Agent (Option PersistedConfig)
  load_one none = pure none
  load_one (some raw) = do r ← attempt (step (λ a. a)); pure (read_back (some raw) r)

  unfoldable pub migrate_to : Option CoreType → Sql Agent (Unit {0})
  migrate_to none = ignored (step drop_legacy)
  migrate_to (some core) = do
    target ← gets (λ a. a.snapshots core)
    (if is_some target then ignored (step drop_legacy) else ignored (step (move_legacy core)))

  unfoldable pub migrate_read : Option PersistedConfig → Sql Agent (Unit {0})
  unfolding migrate_to
  migrate_read none = done
  migrate_read (some snapshot) = migrate_to (parse_core snapshot.core_type)

  unfoldable pub migrate_legacy_snapshot : Sql Agent (Unit {0})
  unfolding migrate_read load_one
  migrate_legacy_snapshot = do
    raw ← gets (λ a. a.legacy)
    snapshot ← load_one raw
    migrate_read snapshot

  unfoldable pub load_each : List CoreType → Sql Agent (List (CoreType × PersistedConfig))
  unfolding load_one
  load_each [] = pure []
  load_each (core ∷ cores) = do
    raw ← gets (λ a. a.snapshots core)
    snapshot ← load_one raw
    rest ← load_each cores
    pure (found_for core snapshot rest)

  unfoldable pub load_last_configs : Sql Agent (List (CoreType × PersistedConfig))
  unfolding migrate_legacy_snapshot load_each
  load_last_configs = do migrate_legacy_snapshot; load_each all_cores
