-- ===== src/RateLimiter/Tests.antt =====
-- Runs of the rate limiter, over exact fractions in place of `f64`.
use multi_proxy_panel.Prelude.{
  ℕ, ◌+◌, ◌-◌, ◌*◌, ◌/◌, ◌^◌, ◌≤◌, min, ◌≡◌, refl, false≢true, true, false, [], ◌∷◌, arith, eq_iff,
  ltb,
}
use multi_proxy_panel.RateLimiter.{
  Float64, Buckets, lookup, insert, cleanup, replenish, refill, take_token, check, clear,
  bucket_count,
}
use multi_proxy_panel.RateLimiter.Refill.{Refills, available, check-answers, check-isolated}
use multi_proxy_panel.RateLimiter.Budget.{served, refills, polls, served-le, polled_starves}

-- A number is a fraction.
abbrev exact : Float64
exact = record {
  F = ℕ × ℕ;
  as_secs_f64 = λ n. (n, 1_000_000_000);
  div = λ a b. (a.0 * b.1, a.1 * b.0);
  mul = λ a b. (a.0 * b.0, a.1 * b.1);
  of_u64 = λ n. (n, 1);
  to_u64 = λ a. min (a.0 / a.1) (2 ^ 64 - 1);
}

exact-Refills : Refills exact 5
unfolding replenish
exact-Refills = record { full = λ e h. omega arith; fits = λ e h. omega arith }

abbrev second : ℕ
second = 1_000_000_000

abbrev one : Buckets
one = ("a", record { tokens = 0; last_update = 60 * second }) ∷ []

basic_rate_limit :
    let (s1, a1) = check exact "test" 2 7 [] in
    let (s2, a2) = check exact "test" 2 7 s1 in
    let (s3, a3) = check exact "test" 2 7 s2 in
    (a1 ≡ true) × (a2 ≡ true) × (a3 ≡ false) × (bucket_count s3 ≡ 1)
unfolding check lookup insert cleanup replenish refill take_token bucket_count
basic_rate_limit = (refl, refl, refl, refl)

zero_limit_allows_all : check exact "unlimited" 0 7 one ≡ (one, true)
unfolding check
zero_limit_allows_all = refl

clear_resets_state : bucket_count (clear one) ≡ 0
unfolding clear bucket_count
clear_resets_state = refl

-- Twelve seconds refill one of five tokens a minute.
check-answers_example :
    (check exact "a" 5 (72 * second) one).1
    ≡ ltb 0 (available exact 5 (72 * second) (lookup "a" one))
check-answers_example =
    check-answers exact 5 exact-Refills (omega arith) "a" (72 * second) one (omega arith)
      (omega arith) ((unfold lookup in refl), tt) (unfold lookup in omega arith)

check-isolated_example :
    available exact 5 (90 * second) (lookup "b" (check exact "a" 5 (72 * second) one).0)
    ≡ available exact 5 (90 * second) (lookup "b" one)
check-isolated_example =
    check-isolated exact 5 5 "a" "b" (72 * second) (90 * second) one exact-Refills exact-Refills
      (omega arith) (omega arith) (omega arith) (omega arith) ((unfold lookup in refl), tt)
      (unfold lookup in omega arith) (λ e. false≢true ((eq_iff "a" "b").1 e))

served-le_example :
    served exact "a" 5 (72 * second ∷ 73 * second ∷ []) one
    ≤ 0 + refills exact "a" 5 (60 * second) (72 * second ∷ 73 * second ∷ [])
served-le_example =
    served-le exact "a" 5 exact-Refills (omega arith) (omega arith) (72 * second ∷ 73 * second ∷ [])
      one (record { tokens = 0; last_update = 60 * second }) ((unfold lookup in refl), tt)
      (unfold lookup in refl) (omega arith) (omega arith)

-- At five requests a minute, a poll every ten seconds is never served again.
polled_starves_example :
    served exact "a" 5 (polls exact "a" 5 20 (60 * second) (10 * second)) one ≡ 0
polled_starves_example =
    polled_starves exact "a" 5 exact-Refills (omega arith) (omega arith) 20 (10 * second) one
      (record { tokens = 0; last_update = 60 * second }) ((unfold lookup in refl), tt)
      (unfold lookup in refl) refl (unfold replenish in refl) (unfold polls in omega arith)
