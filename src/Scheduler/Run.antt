-- ===== src/Scheduler/Run.antt =====
-- run_periodic_checks of crates/pp-hub/src/service/scheduler.rs.
use multi_proxy_panel.Prelude.{String, Option, List, [], ◌∷◌, ◌++◌}
use multi_proxy_panel.Db.{Sql, attempt, done, ◌>>=◌, ◌>>◌}
use multi_proxy_panel.Hub.{Hub, Uuid, Chrono}
use multi_proxy_panel.Protocol.{CoreType}
use multi_proxy_panel.Push.{Config, Formats}
use multi_proxy_panel.Push.Periodic.{push_updated_configs_for_clients}
use multi_proxy_panel.Push.Orphans.{reconcile_orphan_cores}
use multi_proxy_panel.Scheduler.{
  check_client_traffic_resets, check_client_limits, check_on_hold_timeouts, cleanup_old_records,
}

module _ (ch : Chrono) (f : Formats)
    (generate : Uuid → CoreType → Sql Hub (Config × Option String)) where
  -- The configs are pushed if some client is concerned.
  unfoldable pub push_if_any : List Uuid → Sql Hub (Unit {0})
  push_if_any [] = done
  push_if_any (id ∷ ids) = push_updated_configs_for_clients f generate

  unfoldable pub run_periodic_checks : Sql Hub (Unit {0})
  run_periodic_checks = do
    reset_clients ← check_client_traffic_resets ch
    affected_clients ← check_client_limits
    push_if_any affected_clients
    expired_hold ← check_on_hold_timeouts
    push_if_any (affected_clients ++ (reset_clients ++ expired_hold))
    cleanup_old_records ch
    attempt reconcile_orphan_cores
    done
