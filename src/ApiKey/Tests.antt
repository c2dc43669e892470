-- ===== src/ApiKey/Tests.antt =====
-- Runs of the check of API keys, with texts for hashes and fractions for `f64`.
use multi_proxy_panel.Prelude.{
  ℕ, ◌*◌, ◌/◌, ◌-◌, ◌^◌, min, ◌≡◌, refl, String, str_eq, true, false, [], ◌∷◌, none, some, inl,
}
use multi_proxy_panel.Db.{Conn, ok, ◌>>=◌}
use multi_proxy_panel.RateLimiter.{Float64}
use multi_proxy_panel.ApiKey.{
  ApiKey, CachedApiKey, KeyState, Answer, admitted, refused, unauthorized, fresh, cache_get, past,
  blocked, within_rate, limit_rate, answer_cached, answer_uncached, require_api_key,
}
use multi_proxy_panel.ApiKey.Granting.{Coherent, Granted, require_api_key-Granted}

abbrev exact : Float64
exact = record {
  F = ℕ × ℕ;
  as_secs_f64 = λ n. (n, 1_000_000_000);
  div = λ a b. (a.0 * b.1, a.1 * b.0);
  mul = λ a b. (a.0 * b.0, a.1 * b.1);
  of_u64 = λ n. (n, 1);
  to_u64 = λ a. min (a.0 / a.1) (2 ^ 64 - 1);
}

abbrev key : ApiKey
key = record {
  id = "k1";
  name = "ci";
  key_hash = "secret";
  scopes = "nodes:read" ∷ [];
  is_active = true;
  expires_at = some 100;
  ip_allowlist = some ("10.0.0.1" ∷ []);
  rate_limit = none;
}

abbrev entry : CachedApiKey
entry = record {
  key_id = "k1";
  name = "ci";
  scopes = "nodes:read" ∷ [];
  expires_at = some 100;
  ip_allowlist = some ("10.0.0.1" ∷ []);
  rate_limit = none;
  cached_at = 0;
}

abbrev start : Conn KeyState
start = record {
  tables = record { api_keys = key ∷ []; cache = ("secret", entry) ∷ []; limiter = [] };
  asked = 0;
  env = record { fails = λ n. false; now = λ n. 7; uuid = λ n. n };
}

abbrev ask : String → String → Conn KeyState → Answer
ask k ip c = elim ((require_api_key str_eq (λ t. t) str_eq exact k ip c).0) [
  | ok a ↦ a
  | _ ↦ refused unauthorized
]

ask_run :
    ask "secret" "10.0.0.1" start
    ≡ admitted (record { key_id = "k1"; name = "ci"; scopes = "nodes:read" ∷ [] })
unfolding require_api_key cache_get fresh answer_uncached answer_cached past blocked limit_rate
    within_rate ◌>>=◌
ask_run = refl

require_api_key-Granted_example :
    (a : Answer) × ((require_api_key str_eq (λ t. t) str_eq exact "secret" "10.0.0.1" start).0
      ≡ ok a)
    × Granted str_eq
        (λ t. t)
        str_eq
        exact
        (key ∷ [])
        "secret"
        "10.0.0.1"
        (require_api_key str_eq (λ t. t) str_eq exact "secret" "10.0.0.1" start).1.env
        a
    × Coherent str_eq
        (λ t. t)
        str_eq
        exact
        (key ∷ [])
        (require_api_key str_eq (λ t. t) str_eq exact "secret" "10.0.0.1" start).1.tables
require_api_key-Granted_example =
    require_api_key-Granted str_eq (λ t. t) str_eq exact (key ∷ []) "secret" "10.0.0.1" start
      (refl, ((key, (inl refl, refl, ("secret", refl, refl)), (refl, refl, refl, refl, refl)), tt))
