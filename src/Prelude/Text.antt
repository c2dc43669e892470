-- ===== src/Prelude/Text.antt =====
-- The part of Rust's `str` that the components share, on texts as lists of characters.
pub mod Replace
mod Tests
use Prim.Native.Nat.{ℕ, zero, suc, ◌+◌, ◌-◌, ◌*◌, ◌/◌, ◌%◌, ◌^◌}
use Prim.Native.Char.{Char, code}
use Prim.Native.String.{String, slice, ◌++◌ as ◌<>◌}
use mathlib.Core.Bool.{Bool, true, false, not, ◌&&◌, ◌||◌}
use mathlib.Core.List.{List, [], ◌∷◌, map}
use text.Mathlib.Text.{find?}
use mathlib.Core.Option.{Option, none, some}
use multi_proxy_panel.Prelude.Tests.{ltb, leb, ◌==◌, if◌then◌else◌, is_some}
use multi_proxy_panel.Prelude.Lists.{retain}

abbrev pub singleton : Char → String
singleton c = String.◌∷◌ c String.[]

abbrev onto_first : Char → List String → List String
onto_first c [] = singleton c ∷ []
onto_first c (s ∷ ss) = String.◌∷◌ c s ∷ ss

-- `s.split(p)`, where `p` is a test of a character's number.
unfoldable pub split_by : (ℕ → Bool) → String → List String
split_by p String.[] = "" ∷ []
split_by p (String.◌∷◌ c s) =
    let rest = split_by p s in if p (code c) then "" ∷ rest else onto_first c rest

-- `s.split(sep)`, by the separator's number.
abbrev pub split : ℕ → String → List String
split sep s = split_by (λ n. n == sep) s

abbrev between : ℕ → ℕ → ℕ → Bool
between lo hi n = leb lo n && leb n hi

-- `char::is_whitespace`
unfoldable pub is_whitespace : ℕ → Bool
is_whitespace n =
    between 9 13 n
    || n == 32
    || n == 133
    || n == 160
    || n == 5760
    || between 8192 8202 n
    || n == 8232
    || n == 8233
    || n == 8239
    || n == 8287
    || n == 12288

unfoldable pub trim_start : String → String
unfolding is_whitespace
trim_start String.[] = ""
trim_start (String.◌∷◌ c s) =
    let rest = trim_start s in if is_whitespace (code c) then rest else String.◌∷◌ c s

abbrev trimmed_end : Char → String → String
trimmed_end c String.[] = if is_whitespace (code c) then "" else singleton c
trimmed_end c (String.◌∷◌ d s) = String.◌∷◌ c (String.◌∷◌ d s)

unfoldable pub trim_end : String → String
unfolding is_whitespace
trim_end String.[] = ""
trim_end (String.◌∷◌ c s) = trimmed_end c (trim_end s)

unfoldable pub trim : String → String
unfolding trim_start trim_end
trim s = trim_end (trim_start s)

abbrev before : Char → Option (String × String) → Option (String × String)
before c none = none
before c (some (a, b)) = some (String.◌∷◌ c a, b)

abbrev or_here : Bool → String → Option (String × String) → Option (String × String)
or_here true s none = some ("", s)
or_here false s none = none
or_here here s (some p) = some p

-- `s.rsplit_once(sep)`: split at the last separator.
unfoldable pub rsplit_once : ℕ → String → Option (String × String)
rsplit_once sep String.[] = none
rsplit_once sep (String.◌∷◌ c s) = or_here (code c == sep) s (before c (rsplit_once sep s))

abbrev digit : ℕ → Option ℕ
digit n = if between 48 57 n then some (n - 48) else none

-- The digits behind a value; a value of 2 ^ 64 or more is an overflow.
unfoldable pub digits_from : Option ℕ → String → Option ℕ
digits_from none s = none
digits_from (some v) String.[] = some v
digits_from (some v) (String.◌∷◌ c s) =
    digits_from
      (elim (digit (code c)) [
        | none ↦ none
        | some d ↦ if ltb (v * 10 + d) (2 ^ 64) then some (v * 10 + d) else none
      ])
      s

abbrev unsigned : String → Option ℕ
unsigned String.[] = none
unsigned (String.◌∷◌ c s) = digits_from (some 0) (String.◌∷◌ c s)

-- `s.parse::<u64>()`
unfoldable pub parse_u64 : String → Option ℕ
unfolding digits_from
parse_u64 String.[] = none
parse_u64 (String.◌∷◌ c s) = if code c == 43 then unsigned s else unsigned (String.◌∷◌ c s)

abbrev digit_text : ℕ → String
digit_text d = slice "0123456789abcdef" d (suc d)

-- A number has at most as many digits as its value, or one.
unfoldable pub show_onto : ℕ → ℕ → ℕ → String → String
show_onto base zero n s = s
show_onto base (suc fuel) n s = elim (ltb n base) [
  | true ↦ digit_text n <> s
  | false ↦ show_onto base fuel (n / base) (digit_text (n % base) <> s)
]

-- `n.to_string()`
unfoldable pub to_string : ℕ → String
unfolding show_onto
to_string n = show_onto 10 (suc n) n ""

-- `format!("{:x}", n)`
unfoldable pub to_hex : ℕ → String
unfolding show_onto
to_hex n = show_onto 16 (suc n) n ""

unfoldable pub is_empty : String → Bool
is_empty String.[] = true
is_empty (String.◌∷◌ c s) = false

-- `s.split(',').map(trim).filter(not empty)`
unfoldable pub comma_list : String → List String
unfolding split_by trim is_empty
comma_list s = retain (λ t. not (is_empty t)) (map trim (split b',' s))

-- `s.contains(t)`
abbrev pub contains : String → String → Bool
contains s t = is_some (find? s t)
