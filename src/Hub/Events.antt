-- ===== src/Hub/Events.antt =====
-- crates/pp-hub/src/service/webhook.rs, and `log_event` of service/scheduler.rs. The body of a request
-- is its event, its client and its time; the signature is the `hmac` crate's.
use multi_proxy_panel.Prelude.{String, str_eq, ◌||◌, List, [], ◌∷◌, ◌++◌, any, if◌then◌else◌}
use multi_proxy_panel.Db.{
  Result, ok, err, Sql, select, statement, attempt, utc_now, new_v4, modify, done, ◌>>=◌, ◌>>◌,
}
use multi_proxy_panel.Hub.{Hub, Uuid, Webhook}

unfoldable pub deliver : String → Uuid → List Webhook → Sql Hub (Unit {0})
deliver event client [] = done
deliver event client (hook ∷ hooks) =
    let rest = deliver event client hooks in
    if any (λ e. str_eq e event || str_eq e "*") hook.events
    then (do
      now ← utc_now
      modify λ h. record h {
        outbox =
            h.outbox
            ++ record { url = hook.url; event = event; client_id = client; timestamp = now } ∷ [];
      }
      rest)
    else rest

unfoldable pub deliver_fetched : String → Uuid → Result (List Webhook) → Sql Hub (Unit {0})
unfolding deliver
deliver_fetched event client (err e) = done
deliver_fetched event client (ok hooks) = deliver event client hooks

-- It never fails.
unfoldable pub trigger_event : String → Uuid → Sql Hub (Unit {0})
trigger_event event client = do
  hooks ← attempt (select (λ h. h.webhooks) (λ w. w.is_active))
  deliver_fetched event client hooks

unfoldable pub log_event : String → Uuid → Sql Hub (Unit {0})
log_event source client = do
  id ← new_v4
  now ← utc_now
  statement λ h. (
    ok tt,
    record h {
      system_logs =
          h.system_logs
          ++ record { id = id; source = source; client_id = client; created_at = now } ∷ [];
    },
  )
