-- ===== src/Settings/Tests.antt =====
-- Runs of the readings of settings.
use multi_proxy_panel.Prelude.{◌≡◌, refl, some, [], ◌∷◌}
use multi_proxy_panel.Json.{Value, text, json_object, json_array, get, get_field, number}
use multi_proxy_panel.Settings.{
  first_server_name, names_in, trimmed_texts, first_short_id, trimmed_ids, ids_in,
}
use multi_proxy_panel.Prelude.Text.{
  trim, trim_start, trim_end, is_whitespace, comma_list, split_by, is_empty, to_hex, show_onto,
}

abbrev spelled : Value
spelled = json_object (
    ("server_names", text " , a.example, b.example")
    ∷ ("short_id", json_array (number 2748 ∷ []))
    ∷ [])

names_run : (first_server_name spelled ≡ some "a.example") × (first_short_id spelled ≡ some "abc")
unfolding first_server_name names_in get get_field trimmed_texts comma_list split_by trim trim_start
    trim_end is_whitespace is_empty first_short_id ids_in trimmed_ids to_hex show_onto
names_run = (refl, refl)
