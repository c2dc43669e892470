-- ===== src/Subscription/Clash/Placeholders.antt =====
-- The placeholders that a Clash template must have.
use multi_proxy_panel.Prelude.{
  ◌≡◌, refl, sym, ap, ◌∙◌, String, Bool, true, false, List, Option, none, some, inl, inr,
  Option-cases, is_some, false≢true, ◌||◌, if◌then◌else◌,
}
use multi_proxy_panel.Prelude.Text.{contains, trim}
use multi_proxy_panel.Prelude.Text.Replace.{text_before}
use text.Mathlib.Text.{find?}
use multi_proxy_panel.Db.{Result, err, subscription}
use multi_proxy_panel.Json.{Value}
use multi_proxy_panel.Subscription.{Crates, and_result, needed}
use multi_proxy_panel.Subscription.Clash.Template.{
  render, render_yaml_template, replace_yaml_placeholder,
}

abbrev pub IsRefused : {A : Type 0} → Result A → Type 0
IsRefused r = r ≡ err subscription

absent :
    (template placeholder yaml : String)
    → contains template placeholder ≡ false
    → IsRefused (replace_yaml_placeholder template placeholder yaml)
unfolding replace_yaml_placeholder text_before
absent template placeholder yaml h = elim (Option-cases (find? template placeholder)) [
  | inl e ↦ rw e refl
  | inr (n, e) ↦ absurd (false≢true (sym (ap is_some (sym e) ∙ h)))
]

module _ (k : Crates) where
  absent_in :
      (template : String) (proxies : List Value) (names : List String)
      → contains template "<PROXY_REPLACE>" ≡ false
      → IsRefused (render_yaml_template k template proxies names)
  unfolding render_yaml_template
  absent_in template proxies names h = yamls (k.to_yaml _) (k.to_yaml _)
    where
      yamls :
          (a b : Option String)
          → IsRefused (
              and_result (needed a) λ proxies_yaml. and_result (needed b) λ names_yaml.
                and_result
                  (replace_yaml_placeholder template "<PROXY_REPLACE>" proxies_yaml)
                  λ output. replace_yaml_placeholder output "<NODE_REPLACE>" names_yaml)
      yamls none b = refl
      yamls (some a) none = refl
      yamls (some a) (some b) =
          ap (λ r. and_result r λ output. replace_yaml_placeholder output "<NODE_REPLACE>" b)
            (absent template "<PROXY_REPLACE>" a h)

chosen :
    (a b : Bool) (m n : Result String)
    → b ≡ true
    → IsRefused m
    → IsRefused (if a || b then m else n)
chosen true b m n e h = h
chosen false true m n e h = h
chosen false false m n e h = absurd (false≢true e)

-- A base config with the one placeholder <NODE_REPLACE> and not the other gives no subscription,
-- whatever the nodes are: it is taken for a template, and a template must have both.
pub render-one_placeholder :
    (k : Crates) (base : String) (proxies : List Value) (names : List String)
    → contains (trim base) "<NODE_REPLACE>" ≡ true
    → contains base "<PROXY_REPLACE>" ≡ false
    → IsRefused (render k (some base) proxies names)
unfolding render
render-one_placeholder k base proxies names has lacks =
    chosen (contains (trim base) "<PROXY_REPLACE>") (contains (trim base) "<NODE_REPLACE>") _ _ has
      (absent_in k base proxies names lacks)
