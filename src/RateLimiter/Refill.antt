-- ===== src/RateLimiter/Refill.antt =====
-- What a caller of `check` sees: a refill and a decision of the key's own bucket alone.
use multi_proxy_panel.Prelude.{
  ℕ, ◌+◌, ◌-◌, ◌^◌, ◌≤◌, ◌<◌, min, String, eq_iff, eq_refl, ◌≡◌, refl, sym, ◌∙◌, ◌≢◌, inl, inr,
  Bool, true, false, Option, none, some, arith, ltb, ◌==◌, Bool-cases, unwrap_or, subst, zero, suc,
}
use multi_proxy_panel.RateLimiter.{
  Float64, BucketState, Buckets, bucket_max_age, lookup, insert, cleanup, replenish, refill,
  take_token, check,
}
use multi_proxy_panel.RateLimiter.Buckets.{
  lookup-insert, lookup-cleanup, IsUnique, cleanup-IsUnique, insert-IsUnique, keep_if,
}

-- The `f64` refill is at least `limit` after an hour, and keeps clear of 2^64 for three centuries.
pub record Refills (f : Float64) (limit : ℕ) : Type 0 where
  pub full : (e : ℕ) → bucket_max_age ≤ e → limit ≤ replenish f e limit
  pub fits : (e : ℕ) → e < 2 ^ 63 → replenish f e limit < 2 ^ 63

-- The tokens at hand at `now`: the limit for a new key, and else what is left and the refill,
-- capped by the limit.
unfoldable pub available : (f : Float64) → ℕ → ℕ → Option BucketState → ℕ
available f limit now none = limit
available f limit now (some b) = min (b.tokens + replenish f (now - b.last_update) limit) limit

abbrev pub IsSmall : Option BucketState → Type 0
IsSmall none = Unit
IsSmall (some b) = b.tokens < 2 ^ 63

module _ (f : Float64) (limit : ℕ) (r : Refills f limit) (limit_small : limit < 2 ^ 63) where
  refill_lem :
      (now : ℕ) (b : BucketState)
      → now < 2 ^ 63
      → b.tokens < 2 ^ 63
      → refill f now limit b ≡ record { tokens = available f limit now (some b); last_update = now }
  unfolding refill available
  refill_lem now b hn hb = ground (arith, r.fits (now - b.last_update))

  -- a bucket that the cleanup may drop is full again
  available-stale :
      (now : ℕ) (o : Option BucketState)
      → available f limit now (keep_if (λ b. ltb (now - b.last_update) bucket_max_age) o)
        ≡ available f limit now o
  unfolding available keep_if
  available-stale now none = refl
  available-stale now (some b) = ground (arith, r.full (now - b.last_update))

  available-cleanup :
      (now : ℕ) (k : String) (s : Buckets)
      → IsUnique s
      → available f limit now (lookup k (cleanup now s)) ≡ available f limit now (lookup k s)
  available-cleanup now k s u = elim (lookup-cleanup now k s u) [
    | inl e ↦ rw e
    | inr e ↦ rw e (available-stale now (lookup k s))
  ]

  -- the bucket that `check` works on, after its refill
  working : ℕ → Option BucketState → BucketState
  working now o = refill f now limit (unwrap_or o (record { tokens = limit; last_update = now }))

  working_lem :
      (now : ℕ) (o : Option BucketState)
      → now < 2 ^ 63
      → IsSmall o
      → working now o ≡ record { tokens = available f limit now o; last_update = now }
  unfolding working available
  working_lem now none hn ho =
      refill_lem now (record { tokens = limit; last_update = now }) hn limit_small ∙ ground arith
  working_lem now (some b) hn ho = refill_lem now b hn ho

  IsSmall-keep_if :
      (p : BucketState → Bool) (o : Option BucketState) → IsSmall o → IsSmall (keep_if p o)
  unfolding keep_if
  IsSmall-keep_if p none h = h
  IsSmall-keep_if p (some b) h = elim (Bool-cases (p b)) [ inl e ↦ rw e h | inr e ↦ rw e tt ]

  IsSmall-cleanup :
      (now : ℕ) (k : String) (s : Buckets)
      → IsUnique s
      → IsSmall (lookup k s)
      → IsSmall (lookup k (cleanup now s))
  IsSmall-cleanup now k s u h = elim (lookup-cleanup now k s u) [
    | inl e ↦ subst IsSmall (sym e) h
    | inr e ↦ subst IsSmall (sym e) (IsSmall-keep_if _ (lookup k s) h)
  ]

-- The specification of a request: one token less, if there is one.
unfoldable pub spend : ℕ → ℕ → BucketState × Bool
spend now zero = (record { tokens = 0; last_update = now }, false)
spend now (suc n) = (record { tokens = n; last_update = now }, true)

take_token_lem : (now n : ℕ) → take_token (record { tokens = n; last_update = now }) ≡ spend now n
unfolding take_token spend
take_token_lem now zero = refl
take_token_lem now (suc n) = ground arith

positive : (n : ℕ) → 0 < n → (n == 0) ≡ false
positive n h = ground arith

module _ (f : Float64) (limit : ℕ) (r : Refills f limit) (limit_small : limit < 2 ^ 63) where
  module _ (key : String) (now : ℕ) (s : Buckets) (pos : 0 < limit) (now_small : now < 2 ^ 63) where
    module _ (u : IsUnique s) (small : IsSmall (lookup key s)) where
      check_lem : check f key limit now s ≡ (
          let (b, allowed) = spend now (available f limit now (lookup key s)) in
          (insert key b (cleanup now s), allowed))
      unfolding check working
      check_lem = rw (
        positive limit pos,
        working_lem f limit r limit_small now (lookup key (cleanup now s)) now_small
            (IsSmall-cleanup f limit r limit_small now key s u small),
        available-cleanup f limit r limit_small now key s u,
        take_token_lem now (available f limit now (lookup key s)),
      )

      -- A request of a key is allowed exactly when the key's own bucket, refilled since its last
      -- request and capped by the limit, holds a token; whether the cleanup dropped the bucket
      -- makes no difference.
      pub check-answers : (check f key limit now s).1 ≡ ltb 0 (available f limit now (lookup key s))
      unfolding spend
      check-answers = rw check_lem (answer (available f limit now (lookup key s)))
        where
          answer : (n : ℕ) → (spend now n).1 ≡ ltb 0 n
          answer zero = refl
          answer (suc n) = ground arith

      pub lookup-check :
          lookup key (check f key limit now s).0
          ≡ some (spend now (available f limit now (lookup key s))).0
      lookup-check = rw (
        check_lem,
        lookup-insert key key (spend now (available f limit now (lookup key s))).0 (cleanup now s),
        eq_refl key,
      )

      pub check-IsUnique : IsUnique (check f key limit now s).0
      check-IsUnique = rw check_lem (
          insert-IsUnique key (spend now (available f limit now (lookup key s))).0 (cleanup now s)
            (cleanup-IsUnique now s u))

      lookup-check_ne :
          (j : String) → key ≢ j → lookup j (check f key limit now s).0 ≡ lookup j (cleanup now s)
      lookup-check_ne j ne =
          rw
            (
              check_lem,
              lookup-insert key j (spend now (available f limit now (lookup key s))).0
                  (cleanup now s),
            )
            (ground (arith, eq_iff key j))

-- What is stale at `now` is stale later.
available-stale_later :
    (f : Float64) (limit : ℕ) (r : Refills f limit) (now later : ℕ) (o : Option BucketState)
    → now ≤ later
    → available f limit later (keep_if (λ b. ltb (now - b.last_update) bucket_max_age) o)
      ≡ available f limit later o
unfolding available keep_if
available-stale_later f limit r now later none h = refl
available-stale_later f limit r now later (some b) h =
    ground (arith, r.full (later - b.last_update))

-- A request on one key does not change the tokens that another key has at hand then or later, also
-- where the request's cleanup drops the other key's bucket.
pub check-isolated :
    (f : Float64) (limit l : ℕ) (key j : String) (now later : ℕ) (s : Buckets)
    → Refills f limit
    → Refills f l
    → limit < 2 ^ 63
    → 0 < limit
    → now < 2 ^ 63
    → now ≤ later
    → IsUnique s
    → IsSmall (lookup key s)
    → key ≢ j
    → available f l later (lookup j (check f key limit now s).0) ≡ available f l later (lookup j s)
check-isolated f limit l key j now later s r q hl hp hn hnl u sm ne =
    rw (lookup-check_ne f limit r hl key now s hp hn u sm j ne) (elim (lookup-cleanup now j s u) [
      | inl e ↦ rw e
      | inr e ↦ rw e (available-stale_later f l q now later (lookup j s) hnl)
    ])
