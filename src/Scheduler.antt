-- ===== src/Scheduler.antt =====
-- The periodic checks of clients in crates/pp-hub/src/service/scheduler.rs: traffic resets, limits
-- and expiry, on-hold timeouts, and the cleanup of old rows.
pub mod Limits
pub mod Sweep
pub mod Resets
pub mod OnHold
pub mod Run
mod Tests
use multi_proxy_panel.Prelude.{
  ℕ, String, Bool, true, false, not, ◌&&◌, ◌||◌, List, [], ◌∷◌, Option, none, some, ltb, ◌==◌, any,
  if◌then◌else◌, retain,
}
use multi_proxy_panel.Prelude.Int.{ℤ, pos, add_i64, leb_ℤ, ltb_ℤ}
use multi_proxy_panel.Db.{Result, ok, Sql, pure, select, statement, utc_now, done, ◌>>=◌, ◌>>◌}
use multi_proxy_panel.Hub.{
  Hub, Uuid, Time, Chrono, Client, Status, active, disabled, limited, expired, on_hold, Strategy,
  no_reset, daily, weekly, monthly, yearly, other, update_client, SystemLog, OnlineSession,
  AgentLog,
}
use multi_proxy_panel.Hub.Events.{log_event, trigger_event}

abbrev pub is_active : Status → Bool
is_active active = true
is_active _ = false

abbrev pub is_limited : Status → Bool
is_limited limited = true
is_limited _ = false

abbrev pub is_on_hold : Status → Bool
is_on_hold on_hold = true
is_on_hold _ = false

-- `HashSet<Uuid>::insert`
abbrev pub insert_id : Uuid → List Uuid → List Uuid
insert_id id ids = if any (λ i. i == id) ids then ids else id ∷ ids

-- `last.map(|t| period(t) != period(now)).unwrap_or(true)`
abbrev pub differs : (Time → ℕ) → Option Time → Time → Bool
differs period none now = true
differs period (some t) now = not (period t == period now)

module _ (ch : Chrono) where
  unfoldable pub should_reset : Strategy → Option Time → Time → Bool
  should_reset no_reset last now = false
  should_reset daily last now = differs ch.day last now
  should_reset weekly last now = differs ch.week last now
  should_reset monthly none now = true
  should_reset monthly (some t) now =
      not (ch.year t == ch.year now) || not (ch.month t == ch.month now)
  should_reset yearly last now = differs ch.year last now
  should_reset other last now = false

-- The columns that a reset of the client `c` sets in its row.
unfoldable pub reset_columns : Time → Client → Client → Client
reset_columns now c r = record r {
  all_time_used_bytes = add_i64 c.all_time_used_bytes c.traffic_used_bytes;
  traffic_used_bytes = pos 0;
  last_traffic_reset_time = some now;
  status = if is_limited c.status then active else r.status;
}

unfoldable pub reset_client : Time → Client → Sql Hub (Unit {0})
unfolding reset_columns
reset_client now c = do
  update_client c.id (reset_columns now c)
  log_event "traffic_reset" c.id
  trigger_event "traffic_reset" c.id

module _ (ch : Chrono) where
  unfoldable pub reset_loop : Time → List Client → List Uuid → Sql Hub (List Uuid)
  reset_loop now [] reset_clients = pure reset_clients
  reset_loop now (c ∷ cs) reset_clients =
      if should_reset ch c.data_limit_reset_strategy c.last_traffic_reset_time now
      then (do reset_client now c; reset_loop now cs (insert_id c.id reset_clients))
      else reset_loop now cs reset_clients

  unfoldable pub check_client_traffic_resets : Sql Hub (List Uuid)
  check_client_traffic_resets = do
    clients ← select (λ h. h.clients) (λ c. is_active c.status || is_limited c.status)
    now ← utc_now
    reset_loop now clients []

-- `if let Some(expiry) = c.expiry_date && expiry < Utc::now()`
unfoldable pub is_past : Option Time → Sql Hub Bool
is_past none = pure false
is_past (some t) = do now ← utc_now; pure (ltb t now)

unfoldable pub over_limit : Client → Bool
over_limit c =
    ltb_ℤ (pos 0) c.traffic_limit_bytes && leb_ℤ c.traffic_limit_bytes c.traffic_used_bytes

-- A client whose status is set is reported in the log and to the webhooks.
unfoldable pub set_status : Status → String → Uuid → Sql Hub (Unit {0})
set_status s event id = do
  update_client id (λ r. record r { status = s })
  log_event event id
  trigger_event event id

unfoldable pub limits_loop : List Client → List Uuid → Sql Hub (List Uuid)
limits_loop [] affected = pure affected
limits_loop (c ∷ cs) affected = do
  past ← is_past c.expiry_date
  (if past
      then (do set_status expired "client_expired" c.id; limits_loop cs (insert_id c.id affected))
      else if over_limit c
      then (do set_status limited "client_limited" c.id; limits_loop cs (insert_id c.id affected))
      else limits_loop cs affected)

unfoldable pub check_client_limits : Sql Hub (List Uuid)
check_client_limits = do
  clients ← select (λ h. h.clients) (λ c. is_active c.status)
  limits_loop clients []

abbrev pub timed_out : Option Time → Time → Bool
timed_out none now = false
timed_out (some t) now = ltb t now

unfoldable pub hold_loop : Time → List Client → List Uuid → Sql Hub (List Uuid)
hold_loop now [] gone = pure gone
hold_loop now (c ∷ cs) gone =
    if timed_out c.on_hold_timeout now
    then (do set_status expired "on_hold_expired" c.id; hold_loop now cs (insert_id c.id gone))
    else hold_loop now cs gone

unfoldable pub check_on_hold_timeouts : Sql Hub (List Uuid)
check_on_hold_timeouts = do
  clients ← select (λ h. h.clients) (λ c. is_on_hold c.status)
  now ← utc_now
  hold_loop now clients []

abbrev pub cleanup_agent_logs : Time → Sql Hub (Unit {0})
cleanup_agent_logs cutoff =
    statement λ h.
      (ok tt, record h { agent_logs = retain (λ l. not (ltb l.created_at cutoff)) h.agent_logs })

module _ (ch : Chrono) where
  unfoldable pub cleanup_old_records : Sql Hub (Unit {0})
  cleanup_old_records = do
    t1 ← utc_now
    statement λ h. (
      ok tt,
      record h {
        system_logs = retain (λ l. not (ltb l.created_at (ch.minus_days t1 30))) h.system_logs;
      },
    )
    t2 ← utc_now
    statement λ h. (
      ok tt,
      record h {
        sessions = retain (λ s. not (ltb s.last_active_at (ch.minus_minutes t2 10))) h.sessions;
      },
    )
    t3 ← utc_now
    (if ltb (ch.minute t3) 5 then cleanup_agent_logs (ch.minus_days t3 7) else done)
