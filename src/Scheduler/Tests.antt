-- ===== src/Scheduler/Tests.antt =====
-- Runs of the periodic checks.
use multi_proxy_panel.Prelude.{
  ℤ, pos, ◌≡◌, refl, true, false, List, [], ◌∷◌, arith, All, ◌||◌, ◌==◌, if◌then◌else◌, ℕ, map,
}
use multi_proxy_panel.Prelude.Int.{◌+ℤ◌}
use multi_proxy_panel.Db.{ok, Conn, ◌>>=◌}
use multi_proxy_panel.Hub.{
  Hub, Time, Client, Status, update_client, active, limited, expired, on_hold,
}
use multi_proxy_panel.Hub.Events.{log_event, trigger_event, deliver_fetched, deliver}
use multi_proxy_panel.Hub.Samples.{calendar, sample_client, sample_hub, calm, connect}
use multi_proxy_panel.Scheduler.{
  is_active, is_limited, is_on_hold, timed_out, should_reset, over_limit, limits_loop, is_past,
  set_status, hold_loop, reset_loop, reset_client, check_client_limits, check_on_hold_timeouts,
  check_client_traffic_resets,
}
use multi_proxy_panel.Scheduler.Limits.{Admissible, check_client_limits-Enforced}
use multi_proxy_panel.Scheduler.OnHold.{check_on_hold_timeouts-InTime}
use multi_proxy_panel.Scheduler.Resets.{
  lifetime, check_client_traffic_resets-NotDue, check_client_traffic_resets-lifetime,
}

abbrev rows : List Client
rows =
    sample_client 1 active 50 60
    ∷ sample_client 2 active 0 60
    ∷ sample_client 3 limited 50 60
    ∷ sample_client 4 on_hold 0 0
    ∷ []

abbrev start : Time → Conn Hub
start t = connect (calm t) (sample_hub rows)

abbrev statuses : Conn Hub → List Status
statuses c = map (λ r. r.status) c.tables.clients

limits_run :
    ((check_client_limits (start 200000)).0 ≡ ok (1 ∷ []))
    × (statuses (check_client_limits (start 200000)).1 ≡ limited ∷ active ∷ limited ∷ on_hold ∷ [])
unfolding check_client_limits ◌>>=◌ limits_loop is_past over_limit set_status update_client
    log_event trigger_event deliver_fetched deliver
limits_run = (refl, refl)

check_client_limits-Enforced_example :
    All
      (λ r. is_active r.status ≡ true → Admissible 200000 r)
      (check_client_limits (start 200000)).1.tables.clients
check_client_limits-Enforced_example =
    check_client_limits-Enforced 200000 (start 200000) (1 ∷ []) (λ i. omega arith) limits_run.0

-- A client on hold whose timeout has passed expires.
on_hold_run :
    ((check_on_hold_timeouts (start 200000)).0 ≡ ok (4 ∷ []))
    × (statuses (check_on_hold_timeouts (start 200000)).1
        ≡ active ∷ active ∷ limited ∷ expired ∷ [])
unfolding check_on_hold_timeouts ◌>>=◌ hold_loop set_status update_client log_event trigger_event
    deliver_fetched deliver
on_hold_run = (refl, refl)

check_on_hold_timeouts-InTime_example :
    (i : ℕ) × All
      (λ r. is_on_hold r.status ≡ true → timed_out r.on_hold_timeout 200000 ≡ false)
      (check_on_hold_timeouts (start 200000)).1.tables.clients
check_on_hold_timeouts-InTime_example =
    check_on_hold_timeouts-InTime (start 200000) (4 ∷ []) on_hold_run.0

-- On the next day the traffic of the active and the limited clients starts again.
resets_run :
    ((check_client_traffic_resets calendar (start 200000)).0 ≡ ok (3 ∷ 2 ∷ 1 ∷ []))
    × (statuses (check_client_traffic_resets calendar (start 200000)).1
        ≡ active ∷ active ∷ active ∷ on_hold ∷ [])
unfolding check_client_traffic_resets ◌>>=◌ reset_loop reset_client should_reset update_client
    log_event trigger_event deliver_fetched deliver
resets_run = (refl, refl)

check_client_traffic_resets-NotDue_example :
    (i : ℕ) × All
      (λ r.
        (is_active r.status || is_limited r.status) ≡ true
        → should_reset calendar r.data_limit_reset_strategy r.last_traffic_reset_time 200000
          ≡ false)
      (check_client_traffic_resets calendar (start 200000)).1.tables.clients
check_client_traffic_resets-NotDue_example =
    check_client_traffic_resets-NotDue calendar (start 200000) (3 ∷ 2 ∷ 1 ∷ []) resets_run.0

abbrev totals : ℕ → ℤ
totals id = if id == 4 then pos 1000 else pos 1060

-- The third statement, an update, fails.
check_client_traffic_resets-lifetime_example :
    All
      (λ r. lifetime r ≡ totals r.id)
      (check_client_traffic_resets calendar (
        connect
          (record { fails = λ n. n == 2; now = λ n. 200000; uuid = λ n. n })
          (sample_hub rows))).1.tables.clients
check_client_traffic_resets-lifetime_example =
    check_client_traffic_resets-lifetime totals (λ id. ground arith) calendar
      (connect (record { fails = λ n. n == 2; now = λ n. 200000; uuid = λ n. n }) (sample_hub rows))
      (unfold ◌+ℤ◌ in (refl, (refl, (refl, (refl, tt)))))
