-- ===== src/Builder/Hop/Exits.antt =====
-- The relay's end and the exit's end agree.
use multi_proxy_panel.Prelude.{
  ◌≡◌, refl, String, false, Option, none, some, [], ◌∷◌, Bool-cases, inl, inr, unwrap_or,
  Option-cases,
}
use multi_proxy_panel.Prelude.Text.{is_empty}
use multi_proxy_panel.Db.{PanelError, config}
use multi_proxy_panel.Protocol.{ProtocolType, vless_reality, vless_xhttp, hysteria2, anytls}
use multi_proxy_panel.Json.{Value, get, get_str}
use multi_proxy_panel.Settings.{or_else, non_empty}
use multi_proxy_panel.Builder.{Built, built, refused, and_build, required}
use multi_proxy_panel.Builder.SingBoxTls.{build_singbox_server_tls}
use multi_proxy_panel.Builder.SingBox.{build_inbound, build_hysteria2_inbound, obfs_on}
use multi_proxy_panel.Builder.Hop.{
  RelayHop, str_setting, build_singbox_outbound, build_mihomo_proxy, reality_settings, singbox_for,
  mihomo_for,
}

abbrev pub Refusal : Type 0
Refusal = Option (PanelError × String)

abbrev pub refusal_of : {A : Type 0} → Built A → Refusal
refusal_of (built a) = none
refusal_of (refused e m) = some (e, m)

same_refusal :
    {A B : Type 0} (r : Built A) (f g : A → B)
    → refusal_of (and_build r (λ a. built (f a))) ≡ refusal_of (and_build r (λ a. built (g a)))
same_refusal (built a) f g = refl
same_refusal (refused e m) f g = refl

reality_refusal :
    (settings : Value) (f g : String → String → Value)
    → refusal_of (reality_settings settings f) ≡ refusal_of (reality_settings settings g)
reality_refusal settings f g = elim (Option-cases (str_setting ("public_key" ∷ []) settings)) [
  | inl e ↦ rw e refl
  | inr (key, e) ↦ rw e (same_refusal (required _ _ _) (f key) (g key))
]

exits :
    (hop : RelayHop) (p : ProtocolType)
    → refusal_of (singbox_for hop p) ≡ refusal_of (mihomo_for hop p)
exits hop vless_reality = reality_refusal hop.settings _ _
exits hop vless_xhttp = refl
exits hop hysteria2 = same_refusal (required hop.tls_sni config _) _ _
exits hop anytls = same_refusal (required hop.tls_sni config _) _ _

-- The two builders refuse the same hops, with the same error.
pub build_hop-refusals :
    (hop : RelayHop) → refusal_of (build_singbox_outbound hop) ≡ refusal_of (build_mihomo_proxy hop)
unfolding build_singbox_outbound build_mihomo_proxy
build_hop-refusals hop = exits hop hop.protocol

abbrev pub obfs_in : Built Value → Option Value
obfs_in (built v) = get "obfs" v
obfs_in (refused e m) = none

non_empty_or :
    (o : Option String) (d : String)
    → is_empty (unwrap_or o d) ≡ false
    → unwrap_or (or_else (non_empty o) none) d ≡ unwrap_or o d
non_empty_or none d h = refl
non_empty_or (some s) d h = rw h refl

empty_or : (o : Option String) → unwrap_or (or_else (non_empty o) none) "" ≡ unwrap_or o ""
unfolding is_empty
empty_or none = refl
empty_or (some String.[]) = refl
empty_or (some (String.◌∷◌ c s)) = refl

-- Behind a hysteria2 exit that has TLS settings, the relay's outbound hides the traffic exactly as the
-- exit's inbound expects it, unless the setting obfs_type is the empty text.
pub build_singbox_outbound-obfs :
    (hop : RelayHop) (tls : Option Value) (t : Value) (sni : String)
    → hop.protocol ≡ hysteria2
    → hop.tls_sni ≡ some sni
    → build_singbox_server_tls tls ≡ built t
    → is_empty (unwrap_or (get_str "obfs_type" hop.settings) "none") ≡ false
    → obfs_in (build_singbox_outbound hop) ≡ obfs_in (build_inbound hysteria2 hop.settings tls)
unfolding build_singbox_outbound build_inbound build_hysteria2_inbound str_setting get
build_singbox_outbound-obfs hop tls t sni p q e h =
    rw
      (
        p,
        q,
        e,
        non_empty_or (get_str "obfs_type" hop.settings) "none" h,
        empty_or (get_str "obfs_password" hop.settings),
      )
      (elim (Bool-cases (
        obfs_on (unwrap_or (get_str "obfs_type" hop.settings) "none")
          (unwrap_or (get_str "obfs_password" hop.settings) ""))) [
            | inl on ↦ rw on refl
            | inr off ↦ rw off refl
          ])
