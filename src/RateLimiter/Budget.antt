-- ===== src/RateLimiter/Budget.antt =====
-- Sequences of requests on one key: a budget, and the starvation of a key that is polled too fast.
use multi_proxy_panel.Prelude.{
  ℕ, zero, suc, ◌+◌, ◌-◌, ◌^◌, ◌≤◌, ◌<◌, String, ◌≡◌, refl, sym, Bool, true, false, List, [], ◌∷◌,
  Option, some, arith, All, ltb, subst,
}
use multi_proxy_panel.RateLimiter.{Float64, BucketState, Buckets, lookup, replenish, check}
use multi_proxy_panel.RateLimiter.Buckets.{IsUnique}
use multi_proxy_panel.RateLimiter.Refill.{
  Refills, IsSmall, available, spend, lookup-check, check-IsUnique, check-answers,
}

abbrev add_allowed : Bool → ℕ → ℕ
add_allowed true n = suc n
add_allowed false n = n

module _ (f : Float64) (key : String) (limit : ℕ) where
  -- How many of the requests on `key` at the given instants are allowed.
  unfoldable pub served : List ℕ → Buckets → ℕ
  served [] s = 0
  served (t ∷ ts) s =
      let (s', allowed) = check f key limit t s in add_allowed allowed (served ts s')

  -- The refills between the requests.
  unfoldable pub refills : ℕ → List ℕ → ℕ
  refills last [] = 0
  refills last (t ∷ ts) = replenish f (t - last) limit + refills t ts

  -- Requests every `gap` nanoseconds, the first one `gap` after `last`.
  unfoldable pub polls : ℕ → ℕ → ℕ → List ℕ
  polls zero last gap = []
  polls (suc n) last gap = (last + gap) ∷ polls n (last + gap) gap

combine :
    (t n served_rest base : ℕ) (rest : ℕ → ℕ) (allowed : Bool)
    → allowed ≡ ltb 0 n
    → served_rest ≤ (spend t n).0.tokens + rest (spend t n).0.last_update
    → n ≤ base
    → add_allowed allowed served_rest ≤ base + rest t
unfolding spend
combine t zero sr base rest a e h le = ground arith
combine t (suc n) sr base rest a e h le = ground arith

spend-small : (t n : ℕ) → n < 2 ^ 63 → (spend t n).0.tokens < 2 ^ 63
unfolding spend
spend-small t zero h = h
spend-small t (suc n) h = omega arith

available-le :
    (f : Float64) (limit t : ℕ) (b : BucketState) {o : Option BucketState}
    → o ≡ some b
    → (available f limit t o ≤ b.tokens + replenish f (t - b.last_update) limit)
      × (available f limit t o ≤ limit)
unfolding available
available-le f limit t b e = rw e (omega arith, omega arith)

module _ (f : Float64) (key : String) (limit : ℕ) (r : Refills f limit) where
  refills-polls :
      (n last gap : ℕ)
      → replenish f gap limit ≡ 0
      → refills f key limit last (polls f key limit n last gap) ≡ 0
  unfolding refills polls
  refills-polls zero last gap g = refl
  refills-polls (suc n) last gap g =
      let e : last + gap - last ≡ gap = omega arith in
      rw e (omega (arith, g, refills-polls n (last + gap) gap g))

  module _ (small : limit < 2 ^ 63) (pos : 0 < limit) where
    -- The requests that are served are at most the tokens of the bucket and the refills between
    -- the requests.
    pub served-le :
        (ts : List ℕ) (s : Buckets) (b : BucketState)
        → IsUnique s
        → lookup key s ≡ some b
        → b.tokens < 2 ^ 63
        → All (λ t. t < 2 ^ 63) ts
        → served f key limit ts s ≤ b.tokens + refills f key limit b.last_update ts
    unfolding served refills
    served-le [] s b u e hb ht = omega arith
    served-le (t ∷ ts) s b u e hb ht =
        let sm : IsSmall (lookup key s) = subst IsSmall (sym e) hb in
        let n : ℕ = available f limit t (lookup key s) in
        omega (
          arith,
          combine t n _ (b.tokens + replenish f (t - b.last_update) limit)
              (λ l. refills f key limit l ts) (check f key limit t s).1
              (check-answers f limit r small key t s pos ht.0 u sm)
              (served-le ts (check f key limit t s).0 (spend t n).0
                (check-IsUnique f limit r small key t s pos ht.0 u sm)
                (lookup-check f limit r small key t s pos ht.0 u sm)
                (spend-small t n (omega (arith, available-le f limit t b e))) ht.1)
              (available-le f limit t b e).0,
        )

    -- A key whose bucket is empty, and that is polled so fast that the refill of one gap rounds to
    -- nothing, is refused for ever, however many windows pass meanwhile.
    pub polled_starves :
        (n gap : ℕ) (s : Buckets) (b : BucketState)
        → IsUnique s
        → lookup key s ≡ some b
        → b.tokens ≡ 0
        → replenish f gap limit ≡ 0
        → All (λ t. t < 2 ^ 63) (polls f key limit n b.last_update gap)
        → served f key limit (polls f key limit n b.last_update gap) s ≡ 0
    polled_starves n gap s b u e z g ht = omega (
      arith,
      served-le (polls f key limit n b.last_update gap) s b u e (omega arith) ht,
      refills-polls n b.last_update gap g,
    )
