-- ===== src/AgentService.antt =====
-- What the Hub does with an agent's reports of traffic and of online users:
-- crates/pp-hub/src/grpc/agent_service.rs. `parse_str` and `to_string` of the `uuid` crate and the
-- calendar are arguments, and so is the `f32` arithmetic. A `HashMap` is the list of its insertions.
pub mod Traffic
pub mod Online
use multi_proxy_panel.Prelude.{
  ℕ, ℤ, String, str_eq, Bool, true, false, not, ◌&&◌, List, [], ◌∷◌, ◌++◌, Option, none, some, ◌==◌,
  any, retain, map, find_last, if◌then◌else◌,
}
use multi_proxy_panel.Prelude.Int.{add_i64}
use multi_proxy_panel.Db.{
  PanelError, database, Result, ok, err, Sql, pure, select, statement, attempt, utc_now, new_v4,
  done, ◌>>=◌, ◌>>◌,
}
use multi_proxy_panel.Hub.{
  Hub, Uuid, Time, Chrono, Client, Node, NodeBinding, ProtocolConfig, TrafficRecord, NodeUserUsage,
  OnlineSession, Status, active, on_hold, map_where, update_client,
}
use multi_proxy_panel.Hub.Events.{trigger_event}

pub record InboundTraffic : Type 0 where
  pub tag : String
  pub upload_bytes : ℤ
  pub download_bytes : ℤ

pub record UserTraffic : Type 0 where
  pub client_id : String
  pub upload_bytes : ℤ
  pub download_bytes : ℤ

pub record TrafficReport : Type 0 where
  pub inbounds : List InboundTraffic
  pub users : List UserTraffic

pub record OnlineUser : Type 0 where
  pub client_id : String
  pub ip_address : String
  pub inbound_tag : String

pub record OnlineUsersReport : Type 0 where
  pub users : List OnlineUser
  pub timestamp : ℤ

pub record Uuids : Type 0 where
  pub parse_str : String → Option Uuid
  pub to_string : Uuid → String

abbrev pub held : Status → Bool
held on_hold = true
held _ = false

-- `is_in`, and `contains` of a set of ids.
abbrev pub contains : List Uuid → Uuid → Bool
contains ids id = any (λ i. i == id) ids

abbrev pub has_text : List String → String → Bool
has_text xs x = any (λ y. str_eq y x) xs

abbrev pub get_client : Uuid → List Client → Option Client
get_client id = find_last (λ c. c.id == id)

abbrev pub get_resolved : String → List (String × Uuid) → Option (String × Uuid)
get_resolved raw = find_last (λ e. str_eq e.0 raw)

module _ (uuids : Uuids) where
  unfoldable pub parsed_ids : List String → List (String × Uuid)
  parsed_ids [] = []
  parsed_ids (raw ∷ raws) =
      let rest = parsed_ids raws in
      elim (uuids.parse_str raw) [ none ↦ rest | some id ↦ (raw, id) ∷ rest ]

  unfoldable pub email_raws : List String → List String
  email_raws [] = []
  email_raws (raw ∷ raws) =
      let rest = email_raws raws in
      elim (uuids.parse_str raw) [ none ↦ raw ∷ rest | some id ↦ rest ]

abbrev pub has_email : List String → Client → Bool
has_email emails c = elim (c.email) [ none ↦ false | some e ↦ has_text emails e ]

unfoldable pub email_ids : List Client → List (String × Uuid)
email_ids [] = []
email_ids (c ∷ cs) =
    let rest = email_ids cs in elim (c.email) [ none ↦ rest | some e ↦ (e, c.id) ∷ rest ]

unfoldable pub with_emails : List (String × Uuid) → Result (List Client) → List (String × Uuid)
unfolding email_ids
with_emails ids (ok clients) = ids ++ email_ids clients
with_emails ids (err e) = ids

module _ (uuids : Uuids) where
  unfoldable pub lookup_emails : List String → List (String × Uuid) → Sql Hub (List (String × Uuid))
  lookup_emails [] ids = pure ids
  lookup_emails (email ∷ emails) ids = do
    clients ← attempt (select (λ h. h.clients) (has_email (email ∷ emails)))
    pure (with_emails ids clients)

  -- A failed lookup of the emails leaves them out.
  unfoldable pub resolve_client_ids : List String → Sql Hub (List (String × Uuid))
  unfolding parsed_ids email_raws
  resolve_client_ids raws = lookup_emails (email_raws uuids raws) (parsed_ids uuids raws)

-- The clients that the identifiers stand for, read at once; no query where there is none.
unfoldable pub prefetch : List (String × Uuid) → Sql Hub (List Client)
prefetch [] = pure []
prefetch (id ∷ ids) = select (λ h. h.clients) (λ c. contains (map (λ e. e.1) (id ∷ ids)) c.id)
