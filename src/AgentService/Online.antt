-- ===== src/AgentService/Online.antt =====
-- handle_online_users and clear_node_online_sessions of crates/pp-hub/src/grpc/agent_service.rs.
pub mod Activation
mod Tests
use multi_proxy_panel.Prelude.{
  ℕ, ℤ, String, str_eq, Bool, true, false, not, ◌&&◌, List, [], ◌∷◌, ◌++◌, Option, none, some, ◌==◌,
  any, retain, map, find_last, if◌then◌else◌,
}
use multi_proxy_panel.Db.{
  database, Result, ok, err, Sql, pure, select, statement, attempt, utc_now, new_v4, done, ◌>>=◌,
  ◌>>◌,
}
use multi_proxy_panel.Hub.{
  Hub, Uuid, Time, Chrono, Client, OnlineSession, active, map_where, update_client,
}
use multi_proxy_panel.Hub.Events.{trigger_event}
use multi_proxy_panel.AgentService.{
  OnlineUser, OnlineUsersReport, Uuids, held, contains, get_client, get_resolved,
  resolve_client_ids, prefetch,
}

-- The client and the address of a session.
abbrev pub Key : Type 0
Key = Uuid × String

abbrev pub same_key : Key → Key → Bool
same_key a b = a.0 == b.0 && str_eq a.1 b.1

abbrev pub key_of : OnlineSession → Key
key_of s = (s.client_id, s.ip_address)

unfoldable pub activated : Uuid → Result (Unit {0}) → Sql Hub (Unit {0})
activated client (ok u) = trigger_event "client_activated" client
activated client (err e) = done

abbrev pub expire_date : Chrono → Option ℤ → Time → Option Time
expire_date ch none now = none
expire_date ch (some secs) now = some (ch.plus_seconds now secs)

module _ (ch : Chrono) where
  -- A client on hold becomes active, and its time starts.
  unfoldable pub activate : Option Client → Sql Hub (Unit {0})
  activate none = done
  activate (some c) =
      if held c.status
      then (do
        now ← utc_now
        r ← attempt (
            update_client c.id (λ r. record r {
              status = active;
              expiry_date = expire_date ch c.on_hold_expire_duration_secs now;
              updated_at = now;
            }))
        activated c.id r)
      else done

  unfoldable pub connected_at : ℤ → Sql Hub Time
  connected_at timestamp = elim (ch.from_timestamp timestamp) [ none ↦ utc_now | some t ↦ pure t ]

abbrev kept_id : Uuid → List Uuid → Result (Unit {0}) → List Uuid
kept_id id kept (ok u) = id ∷ kept
kept_id id kept (err e) = kept

abbrev tag_text : String → Option String
tag_text t = if str_eq t "" then none else some t

module _ (ch : Chrono) (agent : Uuid) (now : Time) (timestamp : ℤ) where
  -- The session is refreshed, or made. Answers the ids of the sessions to keep.
  unfoldable pub upsert_session :
      Uuid → OnlineUser → List Uuid → Option OnlineSession → Sql Hub (List Uuid)
  upsert_session client user kept (some s) = do
    attempt (
        statement λ h.
          if any (λ r. r.id == s.id) h.sessions
          then (
            ok tt,
            record h {
              sessions =
                  map_where (λ r. r.id == s.id) (λ r. record r { last_active_at = now }) h.sessions;
            },
          )
          else (err database, h))
    pure (s.id ∷ kept)
  upsert_session client user kept none = do
    id ← new_v4
    since ← connected_at ch timestamp
    r ← attempt (
        statement λ h. (
          ok tt,
          record h {
            sessions =
                h.sessions
                ++ record {
                  id = id;
                  client_id = client;
                  node_id = agent;
                  ip_address = user.ip_address;
                  inbound_tag = tag_text user.inbound_tag;
                  connected_at = since;
                  last_active_at = now;
                }
                  ∷ [];
          },
        ))
    pure (kept_id id kept r)

  module _ (existing : List OnlineSession) (clients : List Client) where
    unfoldable pub online_user :
        OnlineUser → List Key → List Uuid → Option (String × Uuid) → Sql Hub (List Key × List Uuid)
    online_user user keys kept none = pure (keys, kept)
    online_user user keys kept (some (raw, client)) =
        let key : Key = (client, user.ip_address) in
        if any (λ k. same_key k key) keys then pure (keys, kept) else (do
          activate ch (get_client client clients)
          ids ← upsert_session client user kept (find_last (λ s. same_key (key_of s) key) existing)
          pure ((client, user.ip_address) ∷ keys, ids))

    unfoldable pub online_loop :
        List (String × Uuid) → List OnlineUser → List Key → List Uuid → Sql Hub (List Uuid)
    online_loop resolved [] keys kept = pure kept
    online_loop resolved (user ∷ users) keys kept = do
      next ← online_user user keys kept (get_resolved user.client_id resolved)
      online_loop resolved users next.0 next.1

-- Whether the session goes: it is the node's, and not one of those to keep.
unfoldable pub gone : Uuid → List Uuid → OnlineSession → Bool
gone agent [] s = s.node_id == agent
gone agent (id ∷ ids) s = s.node_id == agent && not (contains (id ∷ ids) s.id)

module _ (uuids : Uuids) (ch : Chrono) where
  unfoldable pub handle_online_users : Uuid → OnlineUsersReport → Sql Hub (Unit {0})
  handle_online_users agent report = do
    now ← utc_now
    existing ← select (λ h. h.sessions) (λ s. s.node_id == agent)
    resolved ← resolve_client_ids uuids (map (λ u. u.client_id) report.users)
    clients ← prefetch resolved
    kept ← online_loop ch agent now report.timestamp existing clients resolved report.users [] []
    statement λ h. (ok tt, record h { sessions = retain (λ s. not (gone agent kept s)) h.sessions })

unfoldable pub clear_node_online_sessions : Uuid → Sql Hub (Unit {0})
clear_node_online_sessions agent =
    statement
      λ h. (ok tt, record h { sessions = retain (λ s. not (s.node_id == agent)) h.sessions })
