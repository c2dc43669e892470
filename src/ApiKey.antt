-- ===== src/ApiKey.antt =====
-- API keys: the check of a request's key in crates/pp-hub/src/middleware/api_key.rs and the cache of
-- verified keys, `ApiKeyCache` of crates/pp-hub/src/state.rs. The key and the client's address are as
-- the request's headers give them. The verification of a key against its Argon2 hash, the
-- SHA-256 in hex, `ip_matches` and the `f64` arithmetic of the rate limiter are arguments.
pub mod Granting
mod Tests
use Prim.Native.String.{◌++◌ as text_append}
use multi_proxy_panel.Prelude.{
  ℕ, ◌-◌, String, str_eq, Bool, true, false, not, ◌&&◌, ◌||◌, List, [], ◌∷◌, Option, none, some,
  ltb, any, find, if◌then◌else◌,
}
use multi_proxy_panel.Db.{
  PanelError, Result, ok, err, Sql, pure, gets, modify, memory, select, attempt, utc_now, done,
  ◌>>=◌, ◌>>◌,
}
use multi_proxy_panel.RateLimiter.{Float64, Buckets, check}

-- An id is its text. An allowlist is the texts of a JSON array. A negative limit is 0 here: both are
-- no limit.
pub record ApiKey : Type 0 where
  pub id : String
  pub name : String
  pub key_hash : String
  pub scopes : List String
  pub is_active : Bool
  pub expires_at : Option ℕ
  pub ip_allowlist : Option (List String)
  pub rate_limit : Option ℕ

pub record CachedApiKey : Type 0 where
  pub key_id : String
  pub name : String
  pub scopes : List String
  pub expires_at : Option ℕ
  pub ip_allowlist : Option (List String)
  pub rate_limit : Option ℕ
  pub cached_at : ℕ

pub record ApiKeyAuth : Type 0 where
  pub key_id : String
  pub name : String
  pub scopes : List String

pub record KeyState : Type 0 where
  pub api_keys : List ApiKey
  pub cache : List (String × CachedApiKey)
  pub limiter : Buckets

pub data StatusCode : Type 0 where
  unauthorized forbidden too_many_requests internal_server_error : StatusCode

pub data Answer : Type 0 where
  admitted : ApiKeyAuth → Answer
  refused : StatusCode → Answer

unfoldable pub has_scope : ApiKeyAuth → String → Bool
has_scope auth required = any (λ s. str_eq s required || str_eq s "*") auth.scopes

-- An hour, in nanoseconds.
abbrev pub api_key_cache_ttl : ℕ
api_key_cache_ttl = 3600_000_000_000

abbrev pub is_expired : CachedApiKey → ℕ → Bool
is_expired e now = ltb api_key_cache_ttl (now - e.cached_at)

abbrev if_fresh : CachedApiKey → ℕ → Option CachedApiKey
if_fresh e now = if is_expired e now then none else some e

unfoldable pub fresh : Option (String × CachedApiKey) → Sql KeyState (Option CachedApiKey)
fresh none = pure none
fresh (some (k, e)) = do now ← utc_now; pure (if_fresh e now)

unfoldable pub cache_get : String → Sql KeyState (Option CachedApiKey)
cache_get key = do entry ← gets (λ s. find (λ e. str_eq e.0 key) s.cache); fresh entry

unfoldable pub cache_insert : String → CachedApiKey → KeyState → KeyState
cache_insert key e s = record s { cache = (key, e) ∷ s.cache }

unfoldable pub invalidate : KeyState → KeyState
invalidate s = record s { cache = [] }

-- `expires < Utc::now()`
unfoldable pub past : Option ℕ → Sql KeyState Bool
past none = pure false
past (some t) = do now ← utc_now; pure (ltb t now)

module _ (matches : String → String → Bool) where
  -- A non-empty allowlist without the client's address.
  unfoldable pub blocked : String → Option (List String) → Bool
  blocked ip none = false
  blocked ip (some []) = false
  blocked ip (some (a ∷ addresses)) = not (any (λ p. matches ip p) (a ∷ addresses))

module _ (fl : Float64) where
  unfoldable pub limited_check : String → ℕ → Sql KeyState Bool
  limited_check id limit = do
    now ← utc_now
    memory λ s.
        let (b, allowed) = check fl (text_append "rate:apikey:" id) limit now s.limiter in
        (ok allowed, record s { limiter = b })

  -- Whether the rate limit lets the request pass.
  unfoldable pub within_rate : String → Option ℕ → Sql KeyState Bool
  within_rate id none = pure true
  within_rate id (some limit) = if ltb 0 limit then limited_check id limit else pure true

module _ (verify : String → String → Bool) (digest : String → String)
    (matches : String → String → Bool) (fl : Float64) where
  unfoldable pub limit_rate : String → Option ℕ → Sql KeyState Answer → Sql KeyState Answer
  limit_rate id rate next = do
    allowed ← within_rate fl id rate
    (if allowed then next else pure (refused too_many_requests))

  -- The answer by a cached verification.
  unfoldable pub answer_cached : String → CachedApiKey → Sql KeyState Answer
  answer_cached ip e = do
    gone ← past e.expires_at
    (if gone
        then (do modify invalidate; pure (refused unauthorized))
        else if blocked matches ip e.ip_allowlist
        then pure (refused forbidden)
        else limit_rate e.key_id e.rate_limit
            (pure (admitted (record { key_id = e.key_id; name = e.name; scopes = e.scopes }))))

  unfoldable pub remember : String → ApiKey → Sql KeyState Answer
  remember key k = do
    now ← utc_now
    modify (
        cache_insert (digest key) (record {
          key_id = k.id;
          name = k.name;
          scopes = k.scopes;
          expires_at = k.expires_at;
          ip_allowlist = k.ip_allowlist;
          rate_limit = k.rate_limit;
          cached_at = now;
        }))
    pure (admitted (record { key_id = k.id; name = k.name; scopes = k.scopes }))

  -- The answer by the first active key that the request's key verifies against.
  unfoldable pub answer_found : String → String → Option ApiKey → Sql KeyState Answer
  answer_found key ip none = pure (refused unauthorized)
  answer_found key ip (some k) = do
    gone ← past k.expires_at
    (if gone
        then pure (refused unauthorized)
        else if blocked matches ip k.ip_allowlist
        then pure (refused forbidden)
        else limit_rate k.id k.rate_limit (remember key k))

  unfoldable pub answer_searched : String → String → Result (List ApiKey) → Sql KeyState Answer
  answer_searched key ip (err e) = pure (refused internal_server_error)
  answer_searched key ip (ok keys) = answer_found key ip (find (λ k. verify key k.key_hash) keys)

  unfoldable pub answer_uncached : String → String → Option CachedApiKey → Sql KeyState Answer
  answer_uncached key ip (some e) = answer_cached ip e
  answer_uncached key ip none = do
    keys ← attempt (select (λ s. s.api_keys) (λ k. k.is_active))
    answer_searched key ip keys

  unfoldable pub require_api_key : String → String → Sql KeyState Answer
  require_api_key key ip =
      if str_eq key ""
      then pure (refused unauthorized)
      else (do cached ← cache_get (digest key); answer_uncached key ip cached)

-- require_scope_middleware: none is an admitted request.
unfoldable pub require_scope : String → ApiKeyAuth → Option StatusCode
unfolding has_scope
require_scope scope auth = if has_scope auth scope then none else some forbidden
