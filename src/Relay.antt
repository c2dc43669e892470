-- ===== src/Relay.antt =====
-- The match of a relay rule: the check of its config when it is saved, `validate_relay_payload` and
-- `library_lookup` of crates/pp-hub/src/routes/relay_rule.rs, and its reading when configs are
-- generated, `match_spec` of crates/pp-hub/src/service/protocol/relay.rs.
pub mod Accepted
pub mod Rules
mod Tests
use multi_proxy_panel.Prelude.{
  ℕ, ◌+◌, String, str_eq, Bool, true, false, not, ◌&&◌, ◌||◌, List, [], ◌∷◌, Option, none, some,
  ◌==◌, find, length, unwrap_or, if◌then◌else◌,
}
use multi_proxy_panel.Db.{PanelError, validation, Result, ok, err}
use multi_proxy_panel.Json.{Value, text, Items, no_items, item, get, as_str, as_array, count_items}
use multi_proxy_panel.Protocol.{CoreType, sing_box, mihomo}

pub record RuleSet : Type 0 where
  pub name : String
  pub singbox_url : String
  pub singbox_format : String
  pub mihomo_url : String
  pub mihomo_behavior : String

abbrev pub rule_set_library : List RuleSet
rule_set_library =
    record {
      name = "netflix";
      singbox_url =
          "https://raw.githubusercontent.com/SagerNet/sing-geosite/rule-set/geosite-netflix.srs";
      singbox_format = "binary";
      mihomo_url =
          "https://raw.githubusercontent.com/MetaCubeX/meta-rules-dat/meta/geo/geosite/netflix.yaml";
      mihomo_behavior = "classical";
    }
    ∷ record {
      name = "disney";
      singbox_url =
          "https://raw.githubusercontent.com/SagerNet/sing-geosite/rule-set/geosite-disney.srs";
      singbox_format = "binary";
      mihomo_url =
          "https://raw.githubusercontent.com/MetaCubeX/meta-rules-dat/meta/geo/geosite/disney.yaml";
      mihomo_behavior = "classical";
    }
    ∷ record {
      name = "openai";
      singbox_url =
          "https://raw.githubusercontent.com/SagerNet/sing-geosite/rule-set/geosite-openai.srs";
      singbox_format = "binary";
      mihomo_url =
          "https://raw.githubusercontent.com/MetaCubeX/meta-rules-dat/meta/geo/geosite/openai.yaml";
      mihomo_behavior = "classical";
    }
    ∷ record {
      name = "youtube";
      singbox_url =
          "https://raw.githubusercontent.com/SagerNet/sing-geosite/rule-set/geosite-youtube.srs";
      singbox_format = "binary";
      mihomo_url =
          "https://raw.githubusercontent.com/MetaCubeX/meta-rules-dat/meta/geo/geosite/youtube.yaml";
      mihomo_behavior = "classical";
    }
    ∷ record {
      name = "tiktok";
      singbox_url =
          "https://raw.githubusercontent.com/SagerNet/sing-geosite/rule-set/geosite-tiktok.srs";
      singbox_format = "binary";
      mihomo_url =
          "https://raw.githubusercontent.com/MetaCubeX/meta-rules-dat/meta/geo/geosite/tiktok.yaml";
      mihomo_behavior = "classical";
    }
    ∷ record {
      name = "hbo";
      singbox_url =
          "https://raw.githubusercontent.com/SagerNet/sing-geosite/rule-set/geosite-hbo.srs";
      singbox_format = "binary";
      mihomo_url =
          "https://raw.githubusercontent.com/MetaCubeX/meta-rules-dat/meta/geo/geosite/hbo.yaml";
      mihomo_behavior = "classical";
    }
    ∷ record {
      name = "primevideo";
      singbox_url =
          "https://raw.githubusercontent.com/SagerNet/sing-geosite/rule-set/geosite-primevideo.srs";
      singbox_format = "binary";
      mihomo_url =
          "https://raw.githubusercontent.com/MetaCubeX/meta-rules-dat/meta/geo/geosite/primevideo.yaml";
      mihomo_behavior = "classical";
    }
    ∷ []

unfoldable pub library_lookup : String → Option RuleSet
library_lookup name = find (λ (e : RuleSet). str_eq e.name name) rule_set_library

abbrev array_len : Option Value → ℕ
array_len v = elim (as_array v) [ none ↦ 0 | some xs ↦ count_items xs ]

-- `custom.get(core).and_then(|v| v.get(key)).and_then(|v| v.as_str())`
unfoldable pub custom_text : String → String → Value → Option String
custom_text core key custom = elim (get core custom) [ none ↦ none | some v ↦ as_str (get key v) ]

unfoldable pub valid_inline : Value → Result (Unit {0})
unfolding count_items
valid_inline config =
    if array_len (get "domains" config) + array_len (get "domain_suffixes" config) == 0
    then err validation
    else ok tt

unfoldable pub valid_custom : Option Value → Result (Unit {0})
valid_custom none = err validation
valid_custom (some custom) =
    if str_eq (unwrap_or (custom_text "singbox" "url" custom) "") ""
      || str_eq (unwrap_or (custom_text "mihomo" "url" custom) "") ""
    then err validation
    else ok tt

unfoldable pub valid_rule_set : Option String → Value → Result (Unit {0})
valid_rule_set (some name) config = elim (library_lookup name) [
  | none ↦ err validation
  | some e ↦ ok tt
]
valid_rule_set none config = valid_custom (get "custom" config)

-- The part of validate_relay_payload on the match.
unfoldable pub valid_match : String → Value → Result (Unit {0})
valid_match match_type config =
    if str_eq match_type "inline"
    then valid_inline config
    else if str_eq match_type "rule_set"
    then valid_rule_set (as_str (get "library" config)) config
    else err validation

pub data MatchSpec : Type 0 where
  inline : List String → List String → MatchSpec
  from_set : String → String → MatchSpec

unfoldable pub texts : Items → List String
texts no_items = []
texts (item (text s) xs) = let rest = texts xs in if str_eq s "" then rest else s ∷ rest
texts (item _ xs) = texts xs

unfoldable pub str_list : Option Value → List String
unfolding texts
str_list v = elim (as_array v) [ none ↦ [] | some xs ↦ texts xs ]

abbrev inline_spec : List String → List String → Option MatchSpec
inline_spec [] [] = none
inline_spec ds ss = some (inline ds ss)

abbrev pub library_spec : CoreType → Option RuleSet → Option MatchSpec
library_spec core none = none
library_spec sing_box (some e) = some (from_set e.singbox_url e.singbox_format)
library_spec mihomo (some e) = some (from_set e.mihomo_url e.mihomo_behavior)

abbrev pub url_spec : Option String → String → Option MatchSpec
url_spec none extra = none
url_spec (some url) extra = some (from_set url extra)

unfoldable pub custom_spec : CoreType → Option Value → Option MatchSpec
custom_spec core none = none
custom_spec sing_box (some custom) =
    url_spec (custom_text "singbox" "url" custom)
      (unwrap_or (custom_text "singbox" "format" custom) "binary")
custom_spec mihomo (some custom) =
    url_spec (custom_text "mihomo" "url" custom)
      (unwrap_or (custom_text "mihomo" "behavior" custom) "domain")

unfoldable pub rule_set_spec : CoreType → Option String → Value → Option MatchSpec
rule_set_spec core (some name) config = library_spec core (library_lookup name)
rule_set_spec core none config = custom_spec core (get "custom" config)

unfoldable pub match_spec : String → Value → CoreType → Option MatchSpec
unfolding str_list
match_spec match_type config core =
    if str_eq match_type "inline"
    then inline_spec (str_list (get "domains" config)) (str_list (get "domain_suffixes" config))
    else rule_set_spec core (as_str (get "library" config)) config
