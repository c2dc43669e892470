-- ===== src/Hub.antt =====
-- The tables of the Hub's database (crates/pp-db/src/entities) and the memory that its handlers
-- share (`AppState` of crates/pp-hub/src/state.rs), with the columns that the modelled code reads
-- or writes. An id is a number, the nil id is 0; a time is a number. A status column holds one of the
-- values that its CHECK constraint admits.
pub mod Events
pub mod Agents
pub mod Rows
pub mod Samples
use multi_proxy_panel.Prelude.{
  ℕ, ℤ, String, Bool, List, [], ◌∷◌, ◌++◌, Option, none, some, ◌==◌, any, map, if◌then◌else◌,
}
use multi_proxy_panel.Protocol.{CoreType}
use multi_proxy_panel.Db.{Result, ok, err, database, Sql, statement}

abbrev pub Uuid : Type 0
Uuid = ℕ

abbrev pub Time : Type 0
Time = ℕ

-- What the code uses of the `chrono` crate.
pub record Chrono : Type 0 where
  -- `date_naive`, and its `%G-%V`, `month` and `year`
  pub day : Time → ℕ
  pub week : Time → ℕ
  pub month : Time → ℕ
  pub year : Time → ℕ
  pub minute : Time → ℕ
  -- the start of the hour
  pub hour : Time → Time
  -- `t + Duration::seconds(n)`
  pub plus_seconds : Time → ℤ → Time
  -- `t - Duration::minutes(n)`, and days
  pub minus_minutes : Time → ℕ → Time
  pub minus_days : Time → ℕ → Time
  -- `DateTime::from_timestamp`
  pub from_timestamp : ℤ → Option Time

pub data Status : Type 0 where
  active disabled limited expired on_hold : Status

-- `other` stands for every other text.
pub data Strategy : Type 0 where
  no_reset daily weekly monthly yearly other : Strategy

pub record Client : Type 0 where
  pub id : Uuid
  pub email : Option String
  pub traffic_limit_bytes : ℤ
  pub traffic_used_bytes : ℤ
  pub all_time_used_bytes : ℤ
  pub expiry_date : Option Time
  pub data_limit_reset_strategy : Strategy
  pub last_traffic_reset_time : Option Time
  pub status : Status
  pub on_hold_expire_duration_secs : Option ℤ
  pub on_hold_timeout : Option Time
  pub updated_at : Time

pub record SystemLog : Type 0 where
  pub id : Uuid
  pub source : String
  -- the message names a client
  pub client_id : Uuid
  pub created_at : Time

pub record Webhook : Type 0 where
  pub url : String
  pub events : List String
  pub is_active : Bool

-- A request to a webhook, sent by a task of its own.
pub record Delivery : Type 0 where
  pub url : String
  pub event : String
  pub client_id : Uuid
  pub timestamp : Time

pub record OnlineSession : Type 0 where
  pub id : Uuid
  pub client_id : Uuid
  pub node_id : Uuid
  pub ip_address : String
  pub inbound_tag : Option String
  pub connected_at : Time
  pub last_active_at : Time

pub record NodeUserUsage : Type 0 where
  pub id : Uuid
  pub node_id : Uuid
  pub client_id : Uuid
  pub hour_bucket : Time
  pub upload_bytes : ℤ
  pub download_bytes : ℤ

pub record TrafficRecord : Type 0 where
  pub id : Uuid
  pub node_id : Uuid
  pub protocol_config_id : Option Uuid
  pub client_id : Option Uuid
  pub hour_bucket : Time
  pub upload_bytes : ℤ
  pub download_bytes : ℤ

pub record AgentLog : Type 0 where
  pub id : Uuid
  pub node_id : Uuid
  pub created_at : Time

-- A coefficient is an `f32`, by its 32 bits.
pub record Node : Type 0 where
  pub id : Uuid
  pub usage_coefficient : ℕ
  pub is_online : Bool
  pub updated_at : Time

pub record NodeBinding : Type 0 where
  pub id : Uuid
  pub node_id : Uuid
  pub protocol_config_id : Uuid
  pub is_active : Bool
  -- `listen_address` and `listen_port` of `override_settings`, where they are a text and a `u64`
  pub override_address : Option String
  pub override_port : Option ℕ

pub record ProtocolConfig : Type 0 where
  pub id : Uuid
  pub name : String
  pub core_type : String
  pub listen_address : String
  pub listen_port : ℤ

pub record PendingUpdate : Type 0 where
  pub id : Uuid
  pub node_id : Uuid
  pub core_type : String
  pub update_type : String
  pub updated_at : Time

-- A message for an agent: a `ConfigPush` of a config, with whether to restart, its version, the
-- core's version and build, or a `CoreCommand` to stop a core.
pub data HubMessage : Type 0 where
  config_push : CoreType → String → Bool → String → String → String → HubMessage
  core_stop : CoreType → HubMessage

-- `open_channel` says whether the agent's channel still takes messages, `sent` those it took.
pub record AgentConnection : Type 0 where
  pub agent_id : Uuid
  pub open_channel : Bool
  pub config_versions : List (String × String)
  pub sent : List HubMessage

pub record CoreVersion : Type 0 where
  pub core_type : String
  pub version : String
  pub is_active : Bool
  pub published_at : Option Time

pub record Hub : Type 0 where
  pub clients : List Client
  pub nodes : List Node
  pub system_logs : List SystemLog
  pub webhooks : List Webhook
  pub sessions : List OnlineSession
  pub usage_records : List NodeUserUsage
  pub traffic_records : List TrafficRecord
  pub agent_logs : List AgentLog
  pub bindings : List NodeBinding
  pub configs : List ProtocolConfig
  pub core_versions : List CoreVersion
  pub pending_updates : List PendingUpdate
  pub agents : List AgentConnection
  pub outbox : List Delivery

abbrev pub map_where : {A : Type 0} → (A → Bool) → (A → A) → List A → List A
map_where p f [] = []
map_where p f (x ∷ xs) = (if p x then f x else x) ∷ map_where p f xs

-- `active.update(db)` on a client: sets columns of the row with this id, and fails if there is none.
unfoldable pub update_client : Uuid → (Client → Client) → Sql Hub (Unit {0})
update_client id f = statement λ h.
    if any (λ c. c.id == id) h.clients
    then (ok tt, record h { clients = map_where (λ c. c.id == id) f h.clients })
    else (err database, h)
