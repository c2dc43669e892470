-- ===== src/Settings.antt =====
-- The readings of protocol settings, crates/pp-common/src/settings_helper.rs.
pub mod Tls
mod Tests
use multi_proxy_panel.Prelude.{
  ◌≡◌, refl, ℕ, String, Bool, true, false, not, ◌&&◌, ◌||◌, List, [], ◌∷◌, Option, none, some,
  unwrap_or, if◌then◌else◌, retain,
}
use multi_proxy_panel.Prelude.Text.{trim, comma_list, to_hex, is_empty}
use multi_proxy_panel.Json.{
  Value, number, text, array, object, Items, no_items, item, get, as_str, as_array, get_str,
  put_all, to_list,
}

abbrev pub first : {A : Type 0} → List A → Option A
first [] = none
first (x ∷ xs) = some x

abbrev pub or_else : {A : Type 0} → Option A → Option A → Option A
or_else (some x) o = some x
or_else none o = o

pub or_else-none : {A : Type 0} (o : Option A) → or_else o none ≡ o
or_else-none none = refl
or_else-none (some x) = refl

-- `.filter(|s| !s.is_empty())`
abbrev pub non_empty : Option String → Option String
non_empty none = none
non_empty (some s) = if is_empty s then none else some s

-- `filter_map(|v| v.as_str().map(|s| s.trim().to_string()))`
unfoldable pub trimmed_texts : Items → List String
unfolding trim
trimmed_texts no_items = []
trimmed_texts (item (text s) xs) = trim s ∷ trimmed_texts xs
trimmed_texts (item _ xs) = trimmed_texts xs

-- The same, with numbers in hexadecimal.
unfoldable pub trimmed_ids : Items → List String
unfolding trim to_hex
trimmed_ids no_items = []
trimmed_ids (item (text s) xs) = trim s ∷ trimmed_ids xs
trimmed_ids (item (number n) xs) = to_hex n ∷ trimmed_ids xs
trimmed_ids (item _ xs) = trimmed_ids xs

unfoldable pub names_in : Option Value → List String
unfolding comma_list trimmed_texts is_empty
names_in (some (text s)) = comma_list s
names_in (some (array xs)) = retain (λ t. not (is_empty t)) (trimmed_texts xs)
names_in _ = []

unfoldable pub ids_in : Option Value → List String
unfolding comma_list trimmed_ids is_empty
ids_in (some (text s)) = comma_list s
ids_in (some (array xs)) = retain (λ t. not (is_empty t)) (trimmed_ids xs)
ids_in _ = []

unfoldable pub first_server_name : Value → Option String
unfolding get names_in
first_server_name settings =
    first (names_in (or_else (get "server_names" settings) (get "reality_server_names" settings)))

unfoldable pub first_short_id : Value → Option String
unfolding get ids_in
first_short_id settings =
    first (ids_in (or_else (get "short_id" settings) (get "reality_short_id" settings)))

abbrev pub first_client : Value → Option Value
first_client settings = elim (as_array (get "clients" settings)) [
  | none ↦ none
  | some xs ↦ first (to_list xs)
]

abbrev pub and_then : {A B : Type 0} → Option A → (A → Option B) → Option B
and_then none f = none
and_then (some a) f = f a

unfoldable pub client_uuid : Value → Option String
unfolding get is_empty
client_uuid settings =
    or_else
      (non_empty
        (as_str (and_then (first_client settings) (λ c. or_else (get "id" c) (get "uuid" c)))))
      (non_empty (as_str (or_else (get "id" settings) (get "uuid" settings))))

unfoldable pub client_password : Value → Option String
unfolding get is_empty
client_password settings =
    or_else (non_empty (as_str (and_then (first_client settings) (λ c. get "password" c))))
      (non_empty (as_str (get "password" settings)))

unfoldable pub merge_tls_settings : Option Value → Option Value → Option Value
unfolding put_all
merge_tls_settings (some (object base)) (some (object over)) = some (object (put_all over base))
merge_tls_settings base (some over) = some over
merge_tls_settings base none = base

abbrev has_text : String → Value → Bool
has_text key obj = elim (get_str key obj) [ none ↦ false | some s ↦ not (is_empty s) ]

abbrev pub with_certificate : Option Value → Bool
with_certificate (some (object fs)) =
    has_text "certFile" (object fs) && has_text "keyFile" (object fs)
    || has_text "domain" (object fs)
with_certificate _ = false

unfoldable pub tls_has_real_certificate : Option Value → Bool
unfolding get_str is_empty
tls_has_real_certificate tls = with_certificate tls
