-- ===== src/Hub/Samples.antt =====
-- Sample rows and a calendar for runs: days of 86,400 seconds, weeks of 7, months of 30, years of 360 days.
use multi_proxy_panel.Prelude.{
  ℕ, ℤ, pos, negsuc, ◌+◌, ◌-◌, ◌*◌, ◌/◌, ◌%◌, true, false, [], ◌∷◌, some, suc, List,
}
use multi_proxy_panel.Db.{Env, Conn}
use multi_proxy_panel.Hub.{Hub, Uuid, Time, Chrono, Client, Status, Strategy}

abbrev plus_ℤ : ℕ → ℤ → ℕ
plus_ℤ t (pos n) = t + n
plus_ℤ t (negsuc n) = t - suc n

abbrev pub calendar : Chrono
calendar = record {
  day = λ t. t / 86400;
  week = λ t. t / 604800;
  month = λ t. t / 2592000 % 12;
  year = λ t. t / 31104000;
  minute = λ t. t / 60 % 60;
  hour = λ t. t - t % 3600;
  plus_seconds = plus_ℤ;
  minus_minutes = λ t n. t - n * 60;
  minus_days = λ t n. t - n * 86400;
  from_timestamp = λ t. some (plus_ℤ 0 t);
}

abbrev pub sample_client : Uuid → Status → ℕ → ℕ → Client
sample_client id status limit used = record {
  id = id;
  email = some "a@example.com";
  traffic_limit_bytes = pos limit;
  traffic_used_bytes = pos used;
  all_time_used_bytes = pos 1000;
  expiry_date = some 900000;
  data_limit_reset_strategy = Strategy.daily;
  last_traffic_reset_time = some 100000;
  status = status;
  on_hold_expire_duration_secs = some (pos 3600);
  on_hold_timeout = some 150000;
  updated_at = 0;
}

abbrev pub sample_hub : List Client → Hub
sample_hub clients = record {
  clients = clients;
  nodes = record { id = 9; usage_coefficient = 0x3f800000; is_online = true; updated_at = 0 } ∷ [];
  system_logs = [];
  webhooks = record { url = "https://example.com"; events = "*" ∷ []; is_active = true } ∷ [];
  sessions = [];
  usage_records = [];
  traffic_records = [];
  agent_logs = [];
  bindings = [];
  configs = [];
  core_versions = [];
  pending_updates = [];
  agents = [];
  outbox = [];
}

-- Every statement succeeds, and the clock shows this time.
abbrev pub calm : Time → Env
calm t = record { fails = λ n. false; now = λ n. t; uuid = λ n. n }

abbrev pub connect : Env → Hub → Conn Hub
connect e h = record { tables = h; asked = 0; env = e }
