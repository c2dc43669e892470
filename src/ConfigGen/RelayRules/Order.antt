-- ===== src/ConfigGen/RelayRules/Order.antt =====
-- Where the relay rules stand in a mihomo config.
use multi_proxy_panel.Prelude.{
  ◌≡◌, refl, sym, ap, String, true, false, List, [], ◌∷◌, ◌++◌, map, some, All, false≢true, is_some,
  subst,
}
use mathlib.Core.List.{append_assoc}
use multi_proxy_panel.Json.{
  Value, null, boolean, number, other_number, text, array, object, from_list, get, get-put,
  IsObject,
}
use multi_proxy_panel.ConfigGen.RelayRules.{is_match, insert_rule, insert_entry, insert_entries}

-- No rule begins with MATCH.
abbrev pub NoneMatch : List Value → Type 0
NoneMatch = All (λ v. is_match v ≡ false)

insert_rule-before :
    (v m : Value) (before behind : List Value)
    → NoneMatch before
    → is_match m ≡ true
    → insert_rule v (from_list (before ++ m ∷ behind)) ≡ from_list (before ++ v ∷ m ∷ behind)
unfolding insert_rule
insert_rule-before v m [] behind h k = rw k refl
insert_rule-before v m (w ∷ ws) behind h k = rw (h.0, insert_rule-before v m ws behind h.1 k) refl

-- The rules of the config.
abbrev pub RulesAre : Value → List Value → Type 0
RulesAre config rules = get "rules" config ≡ some (array (from_list rules))

has_key : (k : String) (config v : Value) → get k config ≡ some v → IsObject config
unfolding get
has_key k (object fs) v h = refl
has_key k null v h = absurd (false≢true (ap is_some h))
has_key k (boolean b) v h = absurd (false≢true (ap is_some h))
has_key k (number n) v h = absurd (false≢true (ap is_some h))
has_key k other_number v h = absurd (false≢true (ap is_some h))
has_key k (text s) v h = absurd (false≢true (ap is_some h))
has_key k (array xs) v h = absurd (false≢true (ap is_some h))

insert_entry-before :
    (e : String) (m : Value) (before behind : List Value) (config : Value)
    → NoneMatch before
    → is_match m ≡ true
    → RulesAre config (before ++ m ∷ behind)
    → RulesAre (insert_entry e config) (before ++ text e ∷ m ∷ behind)
unfolding insert_entry
insert_entry-before e m before behind config h k r =
    rw (r, insert_rule-before (text e) m before behind h k)
      (get-put "rules" (array (from_list (before ++ text e ∷ m ∷ behind))) config
        (has_key "rules" config _ r))

NoneMatch-snoc :
    (before : List Value) (v : Value)
    → NoneMatch before
    → is_match v ≡ false
    → NoneMatch (before ++ v ∷ [])
NoneMatch-snoc [] v h k = (k, tt)
NoneMatch-snoc (w ∷ ws) v h k = (h.0, NoneMatch-snoc ws v h.1 k)

-- Entries of relay rules, none of which begins with MATCH, stand in their order behind the rules that
-- were there and before the first rule that begins with MATCH.
pub insert_entries-before :
    (es : List String) (m : Value) (before behind : List Value) (config : Value)
    → NoneMatch before
    → NoneMatch (map text es)
    → is_match m ≡ true
    → RulesAre config (before ++ m ∷ behind)
    → RulesAre (insert_entries es config) (before ++ (map text es ++ m ∷ behind))
unfolding insert_entries
insert_entries-before [] m before behind config h n k r = r
insert_entries-before (e ∷ es) m before behind config h n k r =
    subst (RulesAre (insert_entries es (insert_entry e config)))
      (append_assoc before (text e ∷ []) (map text es ++ m ∷ behind))
      (insert_entries-before es m (before ++ text e ∷ []) behind (insert_entry e config)
        (NoneMatch-snoc before (text e) h n.0) n.1 k
        (subst (RulesAre (insert_entry e config))
          (sym (append_assoc before (text e ∷ []) (m ∷ behind)))
          (insert_entry-before e m before behind config h k r)))
