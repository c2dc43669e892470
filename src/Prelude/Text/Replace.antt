-- ===== src/Prelude/Text/Replace.antt =====
-- `str::replace`, `join`, `lines` and the other parts of Rust's `str` that templates need.
use Prim.Native.Nat.{ℕ, zero, suc, ◌+◌, ◌-◌}
use Prim.Native.Char.{Char, code}
use Prim.Native.String.{String, len, slice, ◌++◌ as ◌<>◌}
use text.Mathlib.Text.{starts_with, find?}
use mathlib.Core.Bool.{true, false}
use mathlib.Core.List.{List, [], ◌∷◌}
use mathlib.Core.Option.{Option, none, some}
use multi_proxy_panel.Prelude.Tests.{ltb, ◌==◌, if◌then◌else◌}
use multi_proxy_panel.Prelude.Text.{is_whitespace, split_by, split, singleton}

-- `skip` characters belong to a match that was replaced.
unfoldable pub replace_from : String → String → ℕ → String → String
replace_from t r skip String.[] = ""
replace_from t r (suc skip) (String.◌∷◌ c s) = replace_from t r skip s
replace_from t r zero (String.◌∷◌ c s) = elim (starts_with (String.◌∷◌ c s) t) [
  | true ↦ r <> replace_from t r (len t - 1) s
  | false ↦ String.◌∷◌ c (replace_from t r zero s)
]

-- `s.replace(t, r)`, where `t` is not empty.
abbrev pub replace : String → String → String → String
replace s t r = replace_from t r zero s

abbrev join_onto : String → String → List String → String
join_onto sep s [] = s
join_onto sep s (t ∷ ts) = s <> (sep <> join_onto sep t ts)

-- `ss.join(sep)`
abbrev pub join : String → List String → String
join sep [] = ""
join sep (s ∷ ss) = join_onto sep s ss

-- `" ".repeat(n)`
abbrev pub spaces : ℕ → String
spaces zero = ""
spaces (suc n) = " " <> spaces n

abbrev utf8_size : ℕ → ℕ
utf8_size n = if ltb n 128 then 1 else if ltb n 2048 then 2 else if ltb n 65536 then 3 else 4

-- `s.len() - s.trim_start().len()`
unfoldable pub indent_size : String → ℕ
unfolding is_whitespace
indent_size String.[] = 0
indent_size (String.◌∷◌ c s) =
    let rest = indent_size s in if is_whitespace (code c) then utf8_size (code c) + rest else 0

abbrev pub last_or : String → List String → String
last_or s [] = s
last_or s (t ∷ ts) = last_or t ts

-- `s[s.rfind('\n').map(|i| i + 1).unwrap_or(0)..]`
unfoldable pub last_line : String → String
unfolding split_by
last_line s = last_or "" (split b'\n' s)

-- `s.trim_start_matches('\n')`
unfoldable pub skip_newlines : String → String
skip_newlines String.[] = ""
skip_newlines (String.◌∷◌ c s) =
    let rest = skip_newlines s in if code c == 10 then rest else String.◌∷◌ c s

abbrev before_return : Char → String → String
before_return c String.[] = if code c == 13 then "" else singleton c
before_return c (String.◌∷◌ d s) = String.◌∷◌ c (before_return d s)

abbrev without_return : String → String
without_return String.[] = ""
without_return (String.◌∷◌ c s) = before_return c s

abbrev lines_of : String → List String → List String
lines_of String.[] [] = []
lines_of s [] = s ∷ []
lines_of s (t ∷ ts) = without_return s ∷ lines_of t ts

abbrev first_lines : List String → List String
first_lines [] = []
first_lines (s ∷ ss) = lines_of s ss

-- `s.lines()`
unfoldable pub lines : String → List String
unfolding split_by
lines s = first_lines (split b'\n' s)

abbrev lower : Char → String
lower c =
    if ltb 64 (code c)
    then if ltb (code c) 91
      then slice "abcdefghijklmnopqrstuvwxyz" (code c - 65) (code c - 64)
      else singleton c
    else singleton c

-- `s.to_ascii_lowercase()`
unfoldable pub to_ascii_lowercase : String → String
to_ascii_lowercase String.[] = ""
to_ascii_lowercase (String.◌∷◌ c s) = lower c <> to_ascii_lowercase s

abbrev found_in : String → Option ℕ → Option String
found_in s none = none
found_in s (some n) = some (slice s 0 n)

-- `s.find(t).map(|pos| &s[..pos])`
unfoldable pub text_before : String → String → Option String
text_before t s = found_in s (find? s t)
