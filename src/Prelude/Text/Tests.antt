-- ===== src/Prelude/Text/Tests.antt =====
-- Runs on texts.
use mathlib.Core.Path.{◌≡◌, refl}
use mathlib.Core.List.{[], ◌∷◌}
use mathlib.Core.Option.{none, some}
use multi_proxy_panel.Prelude.Text.{
  split, trim, rsplit_once, parse_u64, to_string, show_onto, is_whitespace, trim_start, trim_end,
  split_by, comma_list, to_hex, is_empty, digits_from,
}

split_run : split b',' "a, b,,c" ≡ "a" ∷ " b" ∷ "" ∷ "c" ∷ []
unfolding split_by
split_run = refl

trim_run : trim "\t a b " ≡ "a b"
unfolding trim trim_start trim_end is_whitespace
trim_run = refl

rsplit_once_run :
    (rsplit_once b':' "::1:443" ≡ some ("::1", "443")) × (rsplit_once b':' "a.example" ≡ none)
unfolding rsplit_once
rsplit_once_run = (refl, refl)

parse_u64_run :
    (parse_u64 "443" ≡ some 443)
    × (parse_u64 "18446744073709551616" ≡ none)
    × (parse_u64 "+" ≡ none)
    × (parse_u64 "" ≡ none)
unfolding parse_u64 digits_from
parse_u64_run = (refl, refl, refl, refl)

to_string_run : (to_string 65535 ≡ "65535") × (to_string 0 ≡ "0")
unfolding to_string show_onto
to_string_run = (refl, refl)

comma_list_run : comma_list " a, ,b" ≡ "a" ∷ "b" ∷ []
unfolding comma_list split_by trim trim_start trim_end is_whitespace is_empty
comma_list_run = refl

to_hex_run : to_hex 2748 ≡ "abc"
unfolding to_hex show_onto
to_hex_run = refl
