-- ===== src/Agent/Restore.antt =====
-- The restart of cores when the Agent starts: `restore_last_config` of crates/pp-agent/src/main.rs.
use multi_proxy_panel.Prelude.{List, [], ◌∷◌, none, if◌then◌else◌}
use multi_proxy_panel.Db.{Result, ok, err, Sql, attempt, done, ◌>>=◌, ◌>>◌}
use multi_proxy_panel.Protocol.{CoreType}
use multi_proxy_panel.Agent.{Agent, ignored}
use multi_proxy_panel.Agent.Snapshots.{PersistedConfig, Codec, load_last_configs}
use multi_proxy_panel.Agent.Cores.{Downloads, start, is_running, manager_for}

module _ (d : Downloads) (f : Codec) where
  unfoldable pub restore_with :
      CoreType → PersistedConfig → Result (Unit {0}) → Sql Agent (Unit {0})
  unfolding is_running start
  restore_with core snapshot (err e) = done
  restore_with core snapshot (ok u) = do
    alive ← is_running core
    (if alive then done else ignored (start core snapshot.config))

  unfoldable pub restore_one : CoreType × PersistedConfig → Sql Agent (Unit {0})
  unfolding restore_with manager_for
  restore_one (core, snapshot) = do
    manager ← attempt (manager_for d core none)
    restore_with core snapshot manager

  unfoldable pub restore_each : List (CoreType × PersistedConfig) → Sql Agent (Unit {0})
  unfolding restore_one
  restore_each [] = done
  restore_each (s ∷ ss) = do restore_one s; restore_each ss

  -- Failures are logged only.
  unfoldable pub restore_last_config : Sql Agent (Unit {0})
  unfolding restore_each load_last_configs
  restore_last_config = do snapshots ← load_last_configs f; restore_each snapshots
