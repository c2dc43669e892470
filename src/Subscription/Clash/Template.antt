-- ===== src/Subscription/Clash/Template.antt =====
-- The YAML of a Clash subscription: the templates, the merge into a base config and the default of
-- crates/pp-subscription/src/formats/clash.rs.
use Prim.Native.String.{◌++◌ as ◌<>◌}
use multi_proxy_panel.Prelude.{
  String, ◌||◌, List, [], ◌∷◌, ◌++◌, map, Option, none, some, if◌then◌else◌,
}
use multi_proxy_panel.Prelude.Text.{contains, is_empty, trim, trim_end}
use multi_proxy_panel.Prelude.Text.Replace.{
  replace_from, replace, spaces, indent_size, last_line, lines, skip_newlines, text_before,
}
use multi_proxy_panel.Db.{internal, Result, ok, err}
use multi_proxy_panel.Json.{
  Value, null, text, array, object, get, json_array, json_object, put, to_list,
}
use multi_proxy_panel.Subscription.{ProxyNode, Crates, and_result, needed, collect_results}
use multi_proxy_panel.Subscription.Clash.{build_proxy}

abbrev indented : String → String → String
indented indent line = if is_empty line then "\n" else "\n" <> (indent <> line)

abbrev indent_all : String → List String → String
indent_all indent [] = ""
indent_all indent (line ∷ rest) = indented indent line <> indent_all indent rest

abbrev block_of : String → List String → String
block_of indent [] = ""
block_of indent (line ∷ rest) = line <> indent_all indent rest

-- A template that lacks the placeholder is an error.
unfoldable pub replace_yaml_placeholder : String → String → String → Result String
unfolding text_before indent_size last_line lines skip_newlines trim_end replace_from is_empty
replace_yaml_placeholder template placeholder yaml =
    and_result (needed (text_before placeholder template)) λ before.
      let indent = spaces (indent_size (last_line before)) in
      let block = block_of indent (lines (trim_end (skip_newlines yaml))) in
      ok (replace template placeholder block)

abbrev pub default_proxy_groups : List String → Value
default_proxy_groups names = json_array (
    json_object (
      ("name", text "Proxy")
      ∷ ("type", text "select")
      ∷ ("proxies", json_array (map text names))
      ∷ [])
    ∷ [])

-- `config[key] = value`: the code panics where the config is neither a map nor null.
abbrev set_key : String → Value → Value → Result Value
set_key k v (object fs) = ok (put k v (object fs))
set_key k v null = ok (json_object ((k, v) ∷ []))
set_key k v _ = err internal

abbrev missing_set : String → Value → Value → Result Value
missing_set k v config = elim (get k config) [ none ↦ set_key k v config | some w ↦ ok config ]

abbrev push_proxies : List Value → Option Value → Value → Value
push_proxies proxies (some (array old)) config =
    put "proxies" (json_array (to_list old ++ proxies)) config
push_proxies proxies _ config = config

-- The proxies behind those of the config, and a group where it has none.
unfoldable pub merge_proxies : List Value → List String → Value → Result Value
unfolding put get
merge_proxies proxies names base = and_result (missing_set "proxies" (json_array []) base) λ config.
    missing_set "proxy-groups" (default_proxy_groups names)
      (push_proxies proxies (get "proxies" config) config)

module _ (k : Crates) where
  unfoldable pub render_yaml_template : String → List Value → List String → Result String
  unfolding replace_yaml_placeholder
  render_yaml_template template proxies names =
      and_result (needed (k.to_yaml (json_array proxies))) λ proxies_yaml.
        and_result (needed (k.to_yaml (json_array (map text names)))) λ names_yaml.
          and_result (replace_yaml_placeholder template "<PROXY_REPLACE>" proxies_yaml)
            λ output. replace_yaml_placeholder output "<NODE_REPLACE>" names_yaml

  unfoldable pub render : Option String → List Value → List String → Result String
  unfolding render_yaml_template merge_proxies trim
  render none proxies names = needed (
      k.to_yaml (
        json_object
          (("proxies", json_array proxies) ∷ ("proxy-groups", default_proxy_groups names) ∷ [])))
  render (some base) proxies names =
      let trimmed = trim base in
      if contains trimmed "<PROXY_REPLACE>" || contains trimmed "<NODE_REPLACE>"
      then render_yaml_template base proxies names
      else and_result (needed (k.from_yaml base)) λ value.
        and_result (merge_proxies proxies names value) λ config. needed (k.to_yaml config)

  unfoldable pub generate : List ProxyNode → Option String → Result String
  unfolding build_proxy render
  generate nodes base =
      and_result (collect_results build_proxy nodes)
        λ proxies. render base proxies (map (λ n. n.name) nodes)
