-- ===== src/Settings/Tls.antt =====
-- The merge of TLS settings.
use multi_proxy_panel.Prelude.{
  ◌≡◌, refl, sym, ◌∙◌, String, str_eq, some, Bool-cases, inl, inr, eq_iff,
}
use multi_proxy_panel.Json.{
  object, Fields, field, no_fields, get, get_field, put_field, put_all, AreDistinct,
  get_field-put_field, get_field-put_field-apart,
}
use multi_proxy_panel.Settings.{or_else, and_then, merge_tls_settings}

put_all-or_else :
    (k : String) (over base : Fields)
    → AreDistinct over
    → get_field k (put_all over base) ≡ or_else (get_field k over) (get_field k base)
unfolding get_field put_all
put_all-or_else k no_fields base h = refl
put_all-or_else k (field j v fs) base h =
    put_all-or_else k fs (put_field j v base) h.1 ∙ elim (Bool-cases (str_eq j k)) [
      | inl e ↦
          let same : j ≡ k = (eq_iff j k).0 e in
          rw (e, sym same, h.0) (get_field-put_field j v base)
      | inr d ↦ rw (d, get_field-put_field-apart k j v base d) refl
    ]

-- A setting of the merged TLS settings is the override's where the override has it, and else the
-- protocol's.
pub merge_tls_settings-override :
    (k : String) (base over : Fields)
    → AreDistinct over
    → and_then (merge_tls_settings (some (object base)) (some (object over))) (get k)
      ≡ or_else (get k (object over)) (get k (object base))
unfolding merge_tls_settings get
merge_tls_settings-override k base over h = put_all-or_else k over base h
