-- ===== src/Json/Tests.antt =====
-- Runs of the readings and of the writing.
use multi_proxy_panel.Prelude.{◌≡◌, refl, [], ◌∷◌, none, some}
use multi_proxy_panel.Json.{
  Value, number, text, get, get_field, get_str, json_object, put, put_field, u64_or,
}

abbrev hop : Value
hop = json_object (("server", text "a.example") ∷ ("port", number 443) ∷ [])

put_run : get_str "server" (put "server" (text "b.example") hop) ≡ some "b.example"
unfolding put put_field get get_field get_str
put_run = refl

missing_run : (get_str "port" hop ≡ none) × (u64_or "up" 100 hop ≡ 100)
unfolding get get_field get_str
missing_run = (refl, refl)
