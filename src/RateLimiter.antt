-- ===== src/RateLimiter.antt =====
-- The token buckets of crates/pp-hub/src/rate_limiter.rs.
-- `RateLimiter.buckets` is a dictionary by key; an `Instant` is its nanoseconds since some origin,
-- and the instant that a call reads is an argument. The arithmetic on `f64` is a parameter.
pub mod Buckets
pub mod Refill
pub mod Budget
mod Tests
use multi_proxy_panel.Prelude.{
  ℕ, ◌+◌, ◌-◌, ◌*◌, ◌%◌, ◌^◌, min, String, str_eq, Bool, true, false, List, [], ◌∷◌, Option, none,
  some, ltb, ◌==◌, if◌then◌else◌, length, retain, unwrap_or,
}

-- What the code uses of `f64`.
pub record Float64 : Type 1 where
  pub F : Type 0
  pub as_secs_f64 : ℕ → F
  pub div : F → F → F
  pub mul : F → F → F
  pub of_u64 : ℕ → F
  pub to_u64 : F → ℕ

pub record BucketState : Type 0 where
  pub tokens : ℕ
  pub last_update : ℕ

abbrev pub Buckets : Type 0
Buckets = List (String × BucketState)

abbrev pub nanos_per_sec : ℕ
nanos_per_sec = 1_000_000_000

abbrev pub bucket_max_age : ℕ
bucket_max_age = 3600 * nanos_per_sec

abbrev pub window : ℕ
window = 60 * nanos_per_sec

unfoldable pub lookup : String → Buckets → Option BucketState
lookup k [] = none
lookup k ((j, b) ∷ s) = if str_eq j k then some b else lookup k s

unfoldable pub insert : String → BucketState → Buckets → Buckets
insert k b [] = (k, b) ∷ []
insert k b ((j, c) ∷ s) = if str_eq j k then (k, b) ∷ s else (j, c) ∷ insert k b s

-- The cleanup of stale buckets, when there are more than 1000.
unfoldable pub cleanup : ℕ → Buckets → Buckets
cleanup now s =
    if ltb 1000 (length s) then retain (λ e. ltb (now - e.1.last_update) bucket_max_age) s else s

-- The request's token, from the refilled bucket.
unfoldable pub take_token : BucketState → BucketState × Bool
take_token b = if ltb 0 b.tokens then (record b { tokens = b.tokens - 1 }, true) else (b, false)

module _ (f : Float64) where
  -- `(elapsed.as_secs_f64() / window.as_secs_f64() * limit as f64) as u64`
  unfoldable pub replenish : ℕ → ℕ → ℕ
  replenish elapsed limit =
      f.to_u64 (f.mul (f.div (f.as_secs_f64 elapsed) (f.as_secs_f64 window)) (f.of_u64 limit))

  -- The bucket after the refill at `now`.
  unfoldable pub refill : ℕ → ℕ → BucketState → BucketState
  refill now limit b = record {
    tokens = min ((b.tokens + replenish (now - b.last_update) limit) % 2 ^ 64) limit;
    last_update = now;
  }

  unfoldable pub check : String → ℕ → ℕ → Buckets → Buckets × Bool
  check key limit now buckets =
      if limit == 0
      then (buckets, true)
      else (let s = cleanup now buckets in
          let b = unwrap_or (lookup key s) (record { tokens = limit; last_update = now }) in
          let (b', allowed) = take_token (refill now limit b) in (insert key b' s, allowed))

unfoldable pub clear : Buckets → Buckets
clear s = []

unfoldable pub bucket_count : Buckets → ℕ
bucket_count s = length s
