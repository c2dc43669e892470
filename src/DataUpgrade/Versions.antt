-- ===== src/DataUpgrade/Versions.antt =====
-- `compare_versions` of crates/pp-db/src/upgrade.rs, and that it is an order.
use Prim.Native.Nat.{Ordering, compare}
use multi_proxy_panel.Prelude.{
  ℕ, ◌+◌, ◌-◌, ◌*◌, ◌^◌, ◌≡◌, refl, Bool, true, false, ◌&&◌, List, [], ◌∷◌, Option, none, some,
  arith, ltb, leb, ◌==◌, if◌then◌else◌,
}

abbrev pub Text : Type 0
Text = List ℕ

abbrev pub text_eq : Text → Text → Bool
text_eq [] [] = true
text_eq (a ∷ s) (b ∷ t) = a == b && text_eq s t
text_eq _ _ = false

-- `v.trim_start_matches('v')`
trim_start_v : Text → Text
trim_start_v [] = []
trim_start_v (c ∷ s) = let rest = trim_start_v s in if c == b'v' then rest else c ∷ s

-- `v.split_once('-')`: the part before the dash, and whether there is one.
split_once_dash : Text → Text × Bool
split_once_dash [] = ([], false)
split_once_dash (c ∷ s) =
    let (base, pre) = split_once_dash s in if c == b'-' then ([], true) else (c ∷ base, pre)

push_front : ℕ → List Text → List Text
push_front c [] = (c ∷ []) ∷ []
push_front c (s ∷ ss) = (c ∷ s) ∷ ss

-- `base.split('.')`
split_dot : Text → List Text
unfolding push_front
split_dot [] = [] ∷ []
split_dot (c ∷ s) = let rest = split_dot s in if c == b'.' then [] ∷ rest else push_front c rest

digits : ℕ → Text → Option ℕ
digits n [] = some n
digits n (c ∷ s) =
    let m = n * 10 + (c - 48) in
    let rest = digits m s in if leb 48 c && leb c 57 && ltb m (2 ^ 64) then rest else none

-- `s.parse::<u64>()`: digits, behind an optional plus sign, with a check of the range.
parse_u64 : Text → Option ℕ
unfolding digits
parse_u64 [] = none
parse_u64 (c ∷ []) = if c == b'+' then none else digits 0 (c ∷ [])
parse_u64 (c ∷ d ∷ s) = if c == b'+' then digits 0 (d ∷ s) else digits 0 (c ∷ d ∷ s)

abbrev cons_some : Option ℕ → List ℕ → List ℕ
cons_some none l = l
cons_some (some n) l = n ∷ l

segments_of : List Text → List ℕ
unfolding parse_u64
segments_of [] = []
segments_of (s ∷ ss) = cons_some (parse_u64 s) (segments_of ss)

-- The segments that are numbers, and whether there is a pre-release suffix.
unfoldable pub parse : Text → List ℕ × Bool
unfolding trim_start_v split_once_dash split_dot segments_of
parse v = let (base, pre) = split_once_dash (trim_start_v v) in (segments_of (split_dot base), pre)

-- `Ordering::then`
abbrev pub and_then : Ordering → Ordering → Ordering
and_then Ordering.eq o = o
and_then o _ = o

abbrev pub reverse : Ordering → Ordering
reverse Ordering.lt = Ordering.gt
reverse Ordering.eq = Ordering.eq
reverse Ordering.gt = Ordering.lt

-- `Vec<u64>::cmp`
cmp_vec : List ℕ → List ℕ → Ordering
cmp_vec [] [] = Ordering.eq
cmp_vec [] (b ∷ y) = Ordering.lt
cmp_vec (a ∷ x) [] = Ordering.gt
cmp_vec (a ∷ x) (b ∷ y) = and_then (compare a b) (cmp_vec x y)

cmp_bool : Bool → Bool → Ordering
cmp_bool false true = Ordering.lt
cmp_bool true false = Ordering.gt
cmp_bool _ _ = Ordering.eq

unfoldable pub compare_versions : Text → Text → Ordering
unfolding cmp_vec cmp_bool
compare_versions a b =
    let (sa, pa) = parse a in
    let (sb, pb) = parse b in and_then (cmp_vec sa sb) (reverse (cmp_bool pa pb))

abbrev pub is_lt : Ordering → Bool
is_lt Ordering.lt = true
is_lt _ = false

abbrev pub is_gt : Ordering → Bool
is_gt Ordering.gt = true
is_gt _ = false

cmp_vec-reverse : (x y : List ℕ) → cmp_vec y x ≡ reverse (cmp_vec x y)
unfolding cmp_vec
cmp_vec-reverse [] [] = refl
cmp_vec-reverse [] (b ∷ y) = refl
cmp_vec-reverse (a ∷ x) [] = refl
cmp_vec-reverse (a ∷ x) (b ∷ y) = ground (arith, cmp_vec-reverse x y)

cmp_vec_trans :
    (x y z : List ℕ)
    → (is_gt (cmp_vec x y) ≡ false)
    → (is_gt (cmp_vec y z) ≡ false)
    → (is_gt (cmp_vec x z) ≡ false)
      × (cmp_vec x z ≡ Ordering.eq → (cmp_vec x y ≡ Ordering.eq) × (cmp_vec y z ≡ Ordering.eq))
unfolding cmp_vec
cmp_vec_trans [] [] [] p q = ground arith
cmp_vec_trans [] [] (c ∷ z) p q = ground arith
cmp_vec_trans [] (b ∷ y) [] p q = ground arith
cmp_vec_trans [] (b ∷ y) (c ∷ z) p q = ground arith
cmp_vec_trans (a ∷ x) [] [] p q = ground arith
cmp_vec_trans (a ∷ x) [] (c ∷ z) p q = ground arith
cmp_vec_trans (a ∷ x) (b ∷ y) [] p q = ground arith
cmp_vec_trans (a ∷ x) (b ∷ y) (c ∷ z) p q = ground (arith, cmp_vec_trans x y z)

-- Swapping the versions turns the answer round: `Less` and `Greater` change places.
pub compare_versions-reverse : (a b : Text) → compare_versions b a ≡ reverse (compare_versions a b)
unfolding compare_versions
compare_versions-reverse a b = ground (arith, cmp_vec-reverse (parse a).0 (parse b).0)

-- The order is transitive, and strictly so where a step is strict.
pub compare_versions_trans :
    (a b c : Text)
    → is_gt (compare_versions a b) ≡ false
    → is_gt (compare_versions b c) ≡ false
    → (is_gt (compare_versions a c) ≡ false)
      × (compare_versions a c ≡ Ordering.eq
          → (compare_versions a b ≡ Ordering.eq) × (compare_versions b c ≡ Ordering.eq))
unfolding compare_versions
compare_versions_trans a b c p q = ground (arith, cmp_vec_trans (parse a).0 (parse b).0 (parse c).0)
