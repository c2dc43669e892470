-- ===== src/RateLimiter/Buckets.antt =====
-- The dictionary of the buckets: what `insert` and the cleanup do to a lookup.
use multi_proxy_panel.Prelude.{
  ℕ, ◌-◌, String, str_eq, eq_iff, ◌≡◌, refl, Bool, [], ◌∷◌, Option, none, some, arith, ltb,
  if◌then◌else◌, retain, length, Bool-cases, subst, inl, inr, ◌⊎◌,
}
use multi_proxy_panel.RateLimiter.{BucketState, Buckets, bucket_max_age, lookup, insert, cleanup}

pub lookup-insert :
    (k j : String) (b : BucketState) (s : Buckets)
    → lookup j (insert k b s) ≡ (if str_eq k j then some b else lookup j s)
unfolding lookup insert
lookup-insert k j b [] = refl
lookup-insert k j b ((i, c) ∷ s) =
    ground (arith, eq_iff k j, eq_iff i k, eq_iff i j, lookup-insert k j b s)

-- A key has one bucket at most.
abbrev pub IsUnique : Buckets → Type 0
IsUnique [] = Unit
IsUnique ((k, b) ∷ s) = (lookup k s ≡ none) × IsUnique s

unfoldable pub keep_if : (BucketState → Bool) → Option BucketState → Option BucketState
keep_if p none = none
keep_if p (some b) = if p b then some b else none

lookup-retain :
    (p : BucketState → Bool) (k : String) (s : Buckets)
    → IsUnique s
    → lookup k (retain (λ e. p e.1) s) ≡ keep_if p (lookup k s)
unfolding lookup keep_if
lookup-retain p k [] u = refl
lookup-retain p k ((j, c) ∷ s) u = elim (Bool-cases (str_eq j k)) [
  | inl same ↦
      let absent : lookup k s ≡ none = subst (λ i. lookup i s ≡ none) ((eq_iff j k).0 same) u.0 in
      ground (arith, lookup-retain p k s u.1)
  | inr other ↦ ground (arith, lookup-retain p k s u.1)
]

-- The cleanup keeps a bucket or, when it is at least an hour old, drops it.
pub lookup-cleanup :
    (now : ℕ) (k : String) (s : Buckets)
    → IsUnique s
    → (lookup k (cleanup now s) ≡ lookup k s)
      ⊎ (lookup k (cleanup now s)
          ≡ keep_if (λ b. ltb (now - b.last_update) bucket_max_age) (lookup k s))
unfolding cleanup
lookup-cleanup now k s u = elim (Bool-cases (ltb 1000 (length s))) [
  | inl many ↦ rw many (inr (lookup-retain (λ b. ltb (now - b.last_update) bucket_max_age) k s u))
  | inr few ↦ rw few (inl refl)
]

pub insert-IsUnique :
    (k : String) (b : BucketState) (s : Buckets) → IsUnique s → IsUnique (insert k b s)
unfolding insert lookup
insert-IsUnique k b [] u = (refl, tt)
insert-IsUnique k b ((j, c) ∷ s) u = elim (Bool-cases (str_eq j k)) [
  | inl same ↦ rw same (subst (λ i. lookup i s ≡ none) ((eq_iff j k).0 same) u.0, u.1)
  | inr other ↦
      rw other
        (ground (arith, lookup-insert k j b s, eq_iff k j, eq_iff j k), insert-IsUnique k b s u.1)
]

retain-IsUnique :
    (p : BucketState → Bool) (s : Buckets) → IsUnique s → IsUnique (retain (λ e. p e.1) s)
retain-IsUnique p [] u = tt
retain-IsUnique p ((j, c) ∷ s) u = elim (Bool-cases (p c)) [
  | inl kept ↦
      rw kept (rw (lookup-retain p j s u.1) (unfold keep_if in rw u.0), retain-IsUnique p s u.1)
  | inr dropped ↦ rw dropped (retain-IsUnique p s u.1)
]

pub cleanup-IsUnique : (now : ℕ) (s : Buckets) → IsUnique s → IsUnique (cleanup now s)
unfolding cleanup
cleanup-IsUnique now s u = elim (Bool-cases (ltb 1000 (length s))) [
  | inl many ↦ rw many (retain-IsUnique (λ b. ltb (now - b.last_update) bucket_max_age) s u)
  | inr few ↦ rw few u
]
