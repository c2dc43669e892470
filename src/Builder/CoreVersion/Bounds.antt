-- ===== src/Builder/CoreVersion/Bounds.antt =====
-- The version that a config is generated for is the greatest that is asked for.
use multi_proxy_panel.Prelude.{
  ℕ, ◌≡◌, refl, String, true, false, not, List, [], ◌∷◌, In, inl, inr, arith, Bool-cases,
}
use multi_proxy_panel.Builder.{InboundConfig}
use multi_proxy_panel.Builder.CoreVersion.{
  compare_parts, compare_versions, version_parts, version_gte, is_lt, is_gt, max_version, later,
  requested, effective_from, effective_singbox_version,
}

-- The first list is not after the second.
abbrev AtMost : List ℕ → List ℕ → Type 0
AtMost xs ys = is_gt (compare_parts xs ys) ≡ false

AtMost-refl : (xs : List ℕ) → AtMost xs xs
unfolding compare_parts
AtMost-refl [] = refl
AtMost-refl (x ∷ xs) = ground (arith, AtMost-refl xs)

AtMost-trans : (xs ys zs : List ℕ) → AtMost xs ys → AtMost ys zs → AtMost xs zs
unfolding compare_parts
AtMost-trans [] ys [] h k = refl
AtMost-trans [] ys (z ∷ zs) h k = refl
AtMost-trans (x ∷ xs) [] zs h k = ground (arith)
AtMost-trans (x ∷ xs) (y ∷ ys) [] h k = ground (arith)
AtMost-trans (x ∷ xs) (y ∷ ys) (z ∷ zs) h k = ground (arith, AtMost-trans xs ys zs)

not_lt : (xs ys : List ℕ) → AtMost xs ys → not (is_lt (compare_parts ys xs)) ≡ true
unfolding compare_parts
not_lt [] [] h = refl
not_lt [] (y ∷ ys) h = refl
not_lt (x ∷ xs) [] h = ground arith
not_lt (x ∷ xs) (y ∷ ys) h = ground (arith, not_lt xs ys)

AtMost-total : (xs ys : List ℕ) → is_gt (compare_parts xs ys) ≡ true → AtMost ys xs
unfolding compare_parts
AtMost-total [] [] h = refl
AtMost-total [] (y ∷ ys) h = ground arith
AtMost-total (x ∷ xs) [] h = refl
AtMost-total (x ∷ xs) (y ∷ ys) h = ground (arith, AtMost-total xs ys)

abbrev Before : String → String → Type 0
Before a b = AtMost (version_parts a) (version_parts b)

next : (best w : String) → Before best (later best w)
unfolding compare_versions
next best w = elim (Bool-cases (is_gt (compare_versions best w))) [
  | inl t ↦ rw t (AtMost-refl (version_parts best))
  | inr f ↦ rw (f, f) refl
]

next_new : (best w : String) → Before w (later best w)
unfolding compare_versions
next_new best w = elim (Bool-cases (is_gt (compare_versions best w))) [
  | inl t ↦ rw t (AtMost-total (version_parts best) (version_parts w) t)
  | inr f ↦ rw f (AtMost-refl (version_parts w))
]

max_version-Before :
    (v best : String) (vs : List String) → Before v best → Before v (max_version best vs)
unfolding max_version
max_version-Before v best [] h = h
max_version-Before v best (w ∷ vs) h =
    max_version-Before v (later best w) vs
      (AtMost-trans (version_parts v) (version_parts best) _ h (next best w))

max_version-In :
    (v best : String) (vs : List String) → In v (best ∷ vs) → Before v (max_version best vs)
unfolding max_version
max_version-In v best vs (inl e) =
    max_version-Before v best vs (rw e (AtMost-refl (version_parts best)))
max_version-In v best [] (inr m) = absurd m
max_version-In v best (w ∷ vs) (inr (inl e)) =
    max_version-Before v (later best w) vs (rw e (next_new best w))
max_version-In v best (w ∷ vs) (inr (inr m)) = max_version-In v (later best w) vs (inr m)

effective_from-In : (v : String) (vs : List String) → In v vs → Before v (effective_from vs)
effective_from-In v [] m = absurd m
effective_from-In v (w ∷ vs) m = max_version-In v w vs m

-- The version that a config is generated for is at least every version that one of its inbounds asks
-- for.
pub effective_singbox_version-max :
    (inbounds : List InboundConfig) (v : String)
    → In v (requested inbounds)
    → version_gte (effective_singbox_version inbounds) v ≡ true
unfolding version_gte compare_versions effective_singbox_version
effective_singbox_version-max inbounds v m =
    not_lt (version_parts v) (version_parts (effective_from (requested inbounds)))
      (effective_from-In v (requested inbounds) m)
