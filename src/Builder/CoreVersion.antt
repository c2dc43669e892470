-- ===== src/Builder/CoreVersion.antt =====
-- The sing-box version that a config is generated for: crates/pp-config/src/singbox.rs.
pub mod Bounds
use Prim.Native.Nat.{Ordering, compare}
use multi_proxy_panel.Prelude.{
  ℕ, String, Bool, true, false, not, ◌&&◌, List, [], ◌∷◌, Option, none, some, leb, ltb,
  if◌then◌else◌, ◌^◌, retain,
}
use multi_proxy_panel.Prelude.Text.{split_by, is_empty, parse_u64}
use multi_proxy_panel.Builder.{InboundConfig}

-- `s.parse::<u32>().ok()`
abbrev as_u32 : Option ℕ → Option ℕ
as_u32 none = none
as_u32 (some n) = if ltb n (2 ^ 32) then some n else none

abbrev collected : Option ℕ → List ℕ → List ℕ
collected none ns = ns
collected (some n) ns = n ∷ ns

abbrev numbers : List String → List ℕ
numbers [] = []
numbers (s ∷ ss) = collected (as_u32 (parse_u64 s)) (numbers ss)

-- The numbers of a version, whatever stands between them.
unfoldable pub version_parts : String → List ℕ
unfolding split_by parse_u64
version_parts v = numbers (split_by (λ c. not (leb 48 c && leb c 57)) v)

-- `Vec<u32>::cmp`
unfoldable pub compare_parts : List ℕ → List ℕ → Ordering
compare_parts [] [] = Ordering.eq
compare_parts [] (y ∷ ys) = Ordering.lt
compare_parts (x ∷ xs) [] = Ordering.gt
compare_parts (x ∷ xs) (y ∷ ys) =
    let rest = compare_parts xs ys in
    elim (compare x y) [
      | Ordering.lt ↦ Ordering.lt
      | Ordering.eq ↦ rest
      | Ordering.gt ↦ Ordering.gt
    ]

unfoldable pub compare_versions : String → String → Ordering
unfolding version_parts compare_parts
compare_versions a b = compare_parts (version_parts a) (version_parts b)

abbrev pub is_lt : Ordering → Bool
is_lt Ordering.lt = true
is_lt _ = false

unfoldable pub version_gte : String → String → Bool
unfolding compare_versions
version_gte version target = not (is_lt (compare_versions version target))

-- The versions that the inbounds ask for.
unfoldable pub requested : List InboundConfig → List String
unfolding is_empty
requested [] = []
requested (i ∷ is) =
    let rest = requested is in
    elim i.core_version [ none ↦ rest | some v ↦ if is_empty v then rest else v ∷ rest ]

abbrev pub is_gt : Ordering → Bool
is_gt Ordering.gt = true
is_gt _ = false

abbrev pub later : String → String → String
later best v = if is_gt (compare_versions best v) then best else v

-- `max_by`: of equal ones the last.
unfoldable pub max_version : String → List String → String
unfolding compare_versions
max_version best [] = best
max_version best (v ∷ vs) = max_version (later best v) vs

abbrev pub default_version : String
default_version = "1.14.0"

abbrev pub effective_from : List String → String
effective_from [] = default_version
effective_from (v ∷ vs) = max_version v vs

unfoldable pub effective_singbox_version : List InboundConfig → String
unfolding requested max_version
effective_singbox_version inbounds = effective_from (requested inbounds)
