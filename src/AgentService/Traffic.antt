-- ===== src/AgentService/Traffic.antt =====
-- handle_traffic of crates/pp-hub/src/grpc/agent_service.rs.
pub mod Counting
mod Tests
use Prim.Native.String.{◌++◌ as text_append}
use multi_proxy_panel.Prelude.{
  ℕ, ℤ, String, str_eq, Bool, true, false, not, ◌&&◌, List, [], ◌∷◌, ◌++◌, Option, none, some, ◌==◌,
  any, retain, map, find_last, if◌then◌else◌,
}
use multi_proxy_panel.Prelude.Int.{add_i64}
use multi_proxy_panel.Db.{
  PanelError, database, Result, ok, err, Sql, pure, select, statement, attempt, utc_now, new_v4,
  done, ◌>>=◌, ◌>>◌,
}
use multi_proxy_panel.Hub.{
  Hub, Uuid, Time, Chrono, Client, Node, NodeBinding, ProtocolConfig, TrafficRecord, NodeUserUsage,
  map_where, update_client,
}
use multi_proxy_panel.AgentService.{
  InboundTraffic, UserTraffic, TrafficReport, Uuids, held, contains, get_client, get_resolved,
  resolve_client_ids, prefetch,
}

abbrev first : {A : Type 0} → List A → Option A
first [] = none
first (x ∷ xs) = some x

abbrev same_id : Option Uuid → Option Uuid → Bool
same_id none none = true
same_id (some a) (some b) = a == b
same_id _ _ = false

module _ (uuids : Uuids) where
  -- `format!("{}-{}", c.name, c.id)`
  abbrev tag_of : ProtocolConfig → String
  tag_of c = text_append c.name (text_append "-" (uuids.to_string c.id))

  tags : Result (List ProtocolConfig) → List (String × Uuid)
  tags (ok configs) = map (λ c. (tag_of c, c.id)) configs
  tags (err e) = []

  bound_configs : Result (List NodeBinding) → Sql Hub (Result (List ProtocolConfig))
  bound_configs (err e) = pure (ok [])
  bound_configs (ok []) = pure (ok [])
  bound_configs (ok (b ∷ bs)) =
      attempt
        (select (λ h. h.configs) (λ c. contains (map (λ x. x.protocol_config_id) (b ∷ bs)) c.id))

  unfoldable pub inbound_tag_map : Uuid → Sql Hub (List (String × Uuid))
  unfolding tags bound_configs
  inbound_tag_map agent = do
    bindings ← attempt (select (λ h. h.bindings) (λ b. b.node_id == agent))
    configs ← bound_configs bindings
    pure (tags configs)

abbrev insert_row : {A : Type 0} → (Hub → List A) → (List A → Hub → Hub) → A → Sql Hub (Unit {0})
insert_row get put row = statement λ h. (ok tt, put (get h ++ row ∷ []) h)

-- `active.update(db)`: fails if no row has the id.
abbrev update_row :
    {A : Type 0} → (Hub → List A) → (List A → Hub → Hub) → (A → Bool) → (A → A) → Sql Hub (Unit {0})
update_row get put is f =
    statement
      λ h. if any is (get h) then (ok tt, put (map_where is f (get h)) h) else (err database, h)

-- One inbound's record of the hour is found and added to, or made. A failed write is passed over.
unfoldable pub upsert_inbound :
    Uuid → Time → Option Uuid → InboundTraffic → Option TrafficRecord → Sql Hub (Unit {0})
upsert_inbound agent hour config inbound (some record_) = do
  attempt (
      update_row (λ h. h.traffic_records) (λ rs h. record h { traffic_records = rs })
        (λ r. r.id == record_.id)
        (λ r. record r {
          upload_bytes = add_i64 record_.upload_bytes inbound.upload_bytes;
          download_bytes = add_i64 record_.download_bytes inbound.download_bytes;
        }))
  done
upsert_inbound agent hour config inbound none = do
  id ← new_v4
  attempt (
      insert_row (λ h. h.traffic_records) (λ rs h. record h { traffic_records = rs })
        (record {
          id = id;
          node_id = agent;
          protocol_config_id = config;
          client_id = none;
          hour_bucket = hour;
          upload_bytes = inbound.upload_bytes;
          download_bytes = inbound.download_bytes;
        }))
  done

abbrev id_of : Option (String × Uuid) → Option Uuid
id_of none = none
id_of (some e) = some e.1

unfoldable pub count_inbounds :
    Uuid → Time → List (String × Uuid) → List InboundTraffic → Sql Hub (Unit {0})
count_inbounds agent hour tag_map [] = done
count_inbounds agent hour tag_map (inbound ∷ inbounds) =
    let config = id_of (get_resolved inbound.tag tag_map) in
    do
      existing ←
          select (λ h. h.traffic_records)
            (λ r.
              r.node_id == agent
              && same_id r.client_id none
              && r.hour_bucket == hour
              && same_id r.protocol_config_id config)
      upsert_inbound agent hour config inbound (first existing)
      count_inbounds agent hour tag_map inbounds

unfoldable pub upsert_usage : Uuid → Uuid → Time → ℤ → ℤ → Option NodeUserUsage → Sql Hub (Unit {0})
upsert_usage agent client hour up down (some record_) = do
  attempt (
      update_row (λ h. h.usage_records) (λ rs h. record h { usage_records = rs })
        (λ r. r.id == record_.id)
        (λ r. record r {
          upload_bytes = add_i64 record_.upload_bytes up;
          download_bytes = add_i64 record_.download_bytes down;
        }))
  done
upsert_usage agent client hour up down none = do
  id ← new_v4
  attempt (
      insert_row (λ h. h.usage_records) (λ rs h. record h { usage_records = rs })
        (record {
          id = id;
          node_id = agent;
          client_id = client;
          hour_bucket = hour;
          upload_bytes = up;
          download_bytes = down;
        }))
  done

-- The client's counter is set from the row as it was read before the first user.
unfoldable pub count_client : ℤ → ℤ → Option Client → Sql Hub (Unit {0})
count_client up down none = done
count_client up down (some c) = if held c.status then done else (do
  attempt (
      update_client c.id
        (λ r. record r { traffic_used_bytes = add_i64 (add_i64 c.traffic_used_bytes up) down }))
  done)

-- `counted bytes rate` is `(bytes as f32 * rate) as i64`.
module _ (counted : ℤ → ℕ → ℤ) (agent : Uuid) (hour : Time) (rate : ℕ) (clients : List Client) where
  unfoldable pub count_user : UserTraffic → Option (String × Uuid) → Sql Hub (Unit {0})
  count_user user none = done
  count_user user (some (raw, client)) =
      let up = counted user.upload_bytes rate in
      let down = counted user.download_bytes rate in
      do
        existing ←
            select (λ h. h.usage_records)
              (λ r. r.node_id == agent && r.client_id == client && r.hour_bucket == hour)
        upsert_usage agent client hour up down (first existing)
        count_client up down (get_client client clients)

  unfoldable pub count_users : List (String × Uuid) → List UserTraffic → Sql Hub (Unit {0})
  count_users resolved [] = done
  count_users resolved (user ∷ users) = do
    count_user user (get_resolved user.client_id resolved)
    count_users resolved users

module _ (uuids : Uuids) (ch : Chrono) (counted : ℤ → ℕ → ℤ) where
  unfoldable pub count_tagged : Uuid → Time → List InboundTraffic → Sql Hub (Unit {0})
  count_tagged agent hour [] = done
  count_tagged agent hour (inbound ∷ inbounds) = do
    tag_map ← inbound_tag_map uuids agent
    count_inbounds agent hour tag_map (inbound ∷ inbounds)

  abbrev rate_of : List Node → ℕ
  rate_of [] = 0x3f800000
  rate_of (n ∷ ns) = n.usage_coefficient

  unfoldable pub handle_traffic : Uuid → TrafficReport → Sql Hub (Unit {0})
  handle_traffic agent traffic = do
    now ← utc_now
    nodes ← select (λ h. h.nodes) (λ n. n.id == agent)
    count_tagged agent (ch.hour now) traffic.inbounds
    resolved ← resolve_client_ids uuids (map (λ u. u.client_id) traffic.users)
    clients ← prefetch resolved
    count_users counted agent (ch.hour now) (rate_of nodes) clients resolved traffic.users
