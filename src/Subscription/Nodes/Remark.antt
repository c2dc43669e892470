-- ===== src/Subscription/Nodes/Remark.antt =====
-- The name of a node with the variables of its remark: `substitute_variables` and `format_bytes` of
-- crates/pp-hub/src/routes/subscription/generator.rs.
use Prim.Native.String.{◌++◌ as ◌<>◌}
use multi_proxy_panel.Prelude.{
  ℕ, ◌^◌, suc, ℤ, pos, negsuc, String, List, [], ◌∷◌, Option, none, some, if◌then◌else◌, unwrap_or,
}
use multi_proxy_panel.Prelude.Int.{◌-ℤ◌, leb_ℤ, max_ℤ}
use multi_proxy_panel.Prelude.Text.{to_string}
use multi_proxy_panel.Prelude.Text.Replace.{replace_from, replace}
use multi_proxy_panel.Hub.{Time, Status, active, disabled, limited, expired, on_hold}
use multi_proxy_panel.Json.{str_or, get_str}
use multi_proxy_panel.ConfigGen.{ProtocolConfig}
use multi_proxy_panel.Subscription.Nodes.{Client, Node}

-- The clock, chrono's `%Y-%m-%d` and the writing of floating point.
pub record Shown : Type 0 where
  -- `num_days().max(0)` from now
  pub days_until : Time → ℕ
  pub date : Time → String
  -- `format!("{:.1}", a as f64 / b as f64)`
  pub quotient : ℤ → ℕ → String

abbrev status_name : Status → String
status_name active = "active"
status_name disabled = "disabled"
status_name limited = "limited"
status_name expired = "expired"
status_name on_hold = "on_hold"

abbrev pub int_text : ℤ → String
int_text (pos n) = to_string n
int_text (negsuc n) = "-" <> to_string (suc n)

module _ (w : Shown) where
  unfoldable pub format_bytes : ℤ → String
  unfolding to_string
  format_bytes bytes =
      if leb_ℤ (pos (1024 ^ 4)) bytes
      then w.quotient bytes (1024 ^ 4) <> " TB"
      else if leb_ℤ (pos (1024 ^ 3)) bytes
      then w.quotient bytes (1024 ^ 3) <> " GB"
      else if leb_ℤ (pos (1024 ^ 2)) bytes
      then w.quotient bytes (1024 ^ 2) <> " MB"
      else if leb_ℤ (pos 1024) bytes
      then w.quotient bytes 1024 <> " KB"
      else int_text bytes <> " B"

  abbrev data_left : Client → ℤ
  data_left c =
      if leb_ℤ c.traffic_limit_bytes (pos 0)
      then pos 0
      else max_ℤ (c.traffic_limit_bytes -ℤ c.traffic_used_bytes) (pos 0)

  abbrev expiry : {A : Type 0} → A → (Time → A) → Option Time → A
  expiry default f none = default
  expiry default f (some t) = f t

  abbrev substitute_each : List (String × String) → String → String
  substitute_each [] s = s
  substitute_each (v ∷ vs) s = substitute_each vs (replace s v.0 v.1)

  unfoldable pub substitute_variables : String → Client → ProtocolConfig → Node → String
  unfolding format_bytes get_str ◌-ℤ◌ to_string replace_from
  substitute_variables template c cfg node =
      substitute_each
        (("{USERNAME}", c.name)
          ∷ ("{DATA_USED}", format_bytes c.traffic_used_bytes)
          ∷ ("{DATA_LEFT}", format_bytes (data_left c))
          ∷ ("{DATA_LIMIT}", format_bytes c.traffic_limit_bytes)
          ∷ ("{DAYS_LEFT}", to_string (expiry 0 w.days_until c.expiry_date))
          ∷ ("{EXPIRE_DATE}", expiry "never" w.date c.expiry_date)
          ∷ ("{STATUS}", status_name c.status)
          ∷ ("{PROTOCOL}", cfg.protocol_type)
          ∷ ("{TRANSPORT}", str_or "network" "tcp" cfg.settings)
          ∷ ("{SERVER_IP}", unwrap_or node.domain node.address)
          ∷ [])
        template
