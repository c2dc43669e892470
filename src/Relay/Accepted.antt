-- ===== src/Relay/Accepted.antt =====
-- Rules that are accepted and apply.
use multi_proxy_panel.Prelude.{
  ◌≡◌, refl, sym, ap, false≢true, String, str_eq, Bool, true, false, ◌||◌, Option, none, some,
  is_some, unwrap_or, if◌then◌else◌,
}
use multi_proxy_panel.Db.{validation, Result, ok, err}
use multi_proxy_panel.Protocol.{CoreType, sing_box, mihomo}
use multi_proxy_panel.Json.{Value, get, as_str}
use multi_proxy_panel.Relay.{
  RuleSet, library_lookup, custom_text, valid_custom, valid_rule_set, valid_match, custom_spec,
  rule_set_spec, match_spec, url_spec, library_spec,
}

accepted : Result (Unit {0}) → Bool
accepted (ok u) = true
accepted (err e) = false

no_error : {A : Type 0} → ◌≡◌ {A = Result (Unit {0})} (err validation) (ok tt) → A
unfolding accepted
no_error e = absurd (false≢true (ap accepted e))

-- A text that is not empty where it is missing is there.
has_url :
    (o : Option String) (extra : String)
    → str_eq (unwrap_or o "") "" ≡ false
    → is_some (url_spec o extra) ≡ true
has_url none extra h = absurd (false≢true (sym h))
has_url (some u) extra h = refl

custom_applies :
    (o : Option Value) (core : CoreType)
    → valid_custom o ≡ ok tt
    → is_some (custom_spec core o) ≡ true
unfolding valid_custom custom_spec
custom_applies none core e = no_error e
custom_applies (some c) core e =
    tests (str_eq (unwrap_or (custom_text "singbox" "url" c) "") "")
      (str_eq (unwrap_or (custom_text "mihomo" "url" c) "") "") refl refl e core
  where
    tests :
        (x y : Bool)
        → str_eq (unwrap_or (custom_text "singbox" "url" c) "") "" ≡ x
        → str_eq (unwrap_or (custom_text "mihomo" "url" c) "") "" ≡ y
        → ◌≡◌ {A = Result (Unit {0})} (if x || y then err validation else ok tt) (ok tt)
        → (core : CoreType) → is_some (custom_spec core (some c)) ≡ true
    tests true y p q e core = no_error e
    tests false true p q e core = no_error e
    tests false false p q e sing_box = has_url (custom_text "singbox" "url" c) _ p
    tests false false p q e mihomo = has_url (custom_text "mihomo" "url" c) _ q

rule_set_applies :
    (name : Option String) (config : Value) (core : CoreType)
    → valid_rule_set name config ≡ ok tt
    → is_some (rule_set_spec core name config) ≡ true
unfolding valid_rule_set rule_set_spec
rule_set_applies none config core e = custom_applies (get "custom" config) core e
rule_set_applies (some name) config core e = found (library_lookup name) core e
  where
    found :
        (o : Option RuleSet) (core : CoreType)
        → ◌≡◌ {A = Result (Unit {0})} (elim o [ none ↦ err validation | some r ↦ ok tt ]) (ok tt)
        → is_some (library_spec core o) ≡ true
    found none core e = no_error e
    found (some r) sing_box e = refl
    found (some r) mihomo e = refl

-- A rule set that is accepted when the rule is saved applies to both cores: match_spec finds a
-- match.
pub valid_match-applies :
    (config : Value) (core : CoreType)
    → valid_match "rule_set" config ≡ ok tt
    → is_some (match_spec "rule_set" config core) ≡ true
unfolding valid_match match_spec
valid_match-applies config core e = rule_set_applies (as_str (get "library" config)) config core e
