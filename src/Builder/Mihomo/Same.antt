-- ===== src/Builder/Mihomo/Same.antt =====
-- Inbounds that both cores serve.
use multi_proxy_panel.Prelude.{
  ◌≡◌, refl, sym, ap, ◌∙◌, String, Bool, true, false, not, List, Option, none, some, [], ◌∷◌,
  Bool-cases, inl, inr, arith, is_some, false≢true, any,
}
use multi_proxy_panel.Prelude.Text.{is_empty}
use multi_proxy_panel.Protocol.{ProtocolType, vless_reality, vless_xhttp, hysteria2, anytls}
use multi_proxy_panel.Db.{validation}
use multi_proxy_panel.Json.{Value, get_str}
use multi_proxy_panel.Settings.{or_else, or_else-none, non_empty}
use multi_proxy_panel.Builder.{
  InboundConfig, Built, built, refused, is_built, and_build, required, collect_next,
}
use multi_proxy_panel.Builder.Loop.{kept, neither, collect_inbounds-is_built}
use multi_proxy_panel.Builder.SingBoxTls.{reality_from, either_str, build_singbox_reality_tls}
use multi_proxy_panel.Builder.SingBox.Full as Full
use multi_proxy_panel.Builder.SingBox.Inbounds as Inbounds
use multi_proxy_panel.Builder.SingBox.Inbounds.{rejected-reality}
use multi_proxy_panel.Builder.MihomoUsers.{setting_str}
use multi_proxy_panel.Builder.Mihomo.{
  build_vless_reality_listener, reality_listener, apply_cert_tls, skippable, build_inbound,
  build_vless_xhttp_listener, build_hysteria2_listener, build_anytls_listener, inbound_of,
  build_full_config,
}

setting_str-either_str :
    (a b : String) (settings : Value) → setting_str (a ∷ b ∷ []) settings ≡ either_str a b settings
unfolding setting_str
setting_str-either_str a b settings =
    ap (or_else (get_str a settings)) (or_else-none (get_str b settings))

reality_same :
    (settings : Value) (f : String → String → Value) (m : String) (d k : Option String)
    → is_some (reality_from settings d k)
      ≡ is_built (
          and_build
            (required (non_empty d) validation m)
            (λ dest. and_build (required (non_empty k) validation m) (λ p. built (f dest p))))
reality_same settings f m none k = refl
reality_same settings f m (some d) none = elim (Bool-cases (is_empty d)) [
  | inl t ↦ rw t refl
  | inr n ↦ rw n refl
]
reality_same settings f m (some d) (some k) = ground (arith)

reality_listener_same :
    (settings : Value)
    → is_some (build_singbox_reality_tls settings)
      ≡ is_built (build_vless_reality_listener settings)
unfolding build_vless_reality_listener build_singbox_reality_tls
reality_listener_same settings =
    rw
      (
        setting_str-either_str "reality_dest" "dest" settings,
        setting_str-either_str "reality_private_key" "private_key" settings,
      )
      (reality_same settings (reality_listener settings) _ _ _)

reality_kept :
    (b : Built Value) (vs : List Value)
    → not (is_built b) ≡ false
    → collect_next false b (built vs) ≡ built (kept b vs)
reality_kept (built v) vs h = refl
reality_kept (refused e m) vs h = absurd (false≢true (sym h))

reality_rejected :
    (b : Built Value) (rest : Built (List Value))
    → not (is_built b) ≡ true
    → is_built (collect_next false b rest) ≡ false
reality_rejected (built v) rest h = absurd (false≢true h)
reality_rejected (refused e m) rest h = refl

abbrev rejected_as : ProtocolType → Value → Bool
rejected_as vless_reality settings = not (is_built (build_vless_reality_listener settings))
rejected_as _ settings = false

abbrev rejected : InboundConfig → Bool
rejected i = rejected_as i.protocol i.settings

one_kept :
    (p : ProtocolType) (settings : Value) (tls : Option Value) (vs : List Value)
    → rejected_as p settings ≡ false
    → collect_next (skippable p) (build_inbound p settings tls) (built vs)
      ≡ built (kept (build_inbound p settings tls) vs)
unfolding build_inbound build_vless_xhttp_listener build_hysteria2_listener build_anytls_listener
    apply_cert_tls
one_kept vless_reality settings tls vs h = reality_kept (build_vless_reality_listener settings) vs h
one_kept vless_xhttp settings none vs h = refl
one_kept hysteria2 settings none vs h = refl
one_kept anytls settings none vs h = refl
one_kept vless_xhttp settings (some tls) vs h = ground arith
one_kept hysteria2 settings (some tls) vs h = ground arith
one_kept anytls settings (some tls) vs h = ground arith

one_rejected :
    (p : ProtocolType) (settings : Value) (tls : Option Value) (rest : Built (List Value))
    → rejected_as p settings ≡ true
    → is_built (collect_next (skippable p) (build_inbound p settings tls) rest) ≡ false
unfolding build_inbound
one_rejected vless_reality settings tls rest h =
    reality_rejected (build_vless_reality_listener settings) rest h
one_rejected _ settings tls rest h = absurd (false≢true h)

abbrev pub for_mihomo_only : InboundConfig → Bool
for_mihomo_only i = elim i.protocol [ vless_xhttp ↦ true | _ ↦ false ]

same_as :
    (p : ProtocolType) (settings : Value)
    → (elim p [ vless_xhttp ↦ true | _ ↦ false ]) ≡ false
    → Inbounds.rejected_as p settings ≡ rejected_as p settings
same_as vless_reality settings h =
    sym (rejected-reality settings) ∙ ap not (reality_listener_same settings)
same_as vless_xhttp settings h = absurd (false≢true (sym h))
same_as hysteria2 settings h = refl
same_as anytls settings h = refl

same_any :
    (is : List InboundConfig)
    → any for_mihomo_only is ≡ false
    → any Inbounds.rejected is ≡ any rejected is
same_any [] h = refl
same_any (i ∷ is) h =
    let (f, rest) = neither (for_mihomo_only i) (any for_mihomo_only is) h in
    rw (same_as i.protocol i.settings f, same_any is rest) refl

-- Inbounds of protocols that both cores serve make a config for sing-box exactly where they make one
-- for mihomo.
pub build_full_config-Same :
    (var : String → Option String) (inbounds : List InboundConfig)
    → any for_mihomo_only inbounds ≡ false
    → is_built (Full.build_full_config var inbounds) ≡ is_built (build_full_config var inbounds)
unfolding build_full_config
build_full_config-Same var inbounds h =
    Inbounds.build_full_config-Rejected var inbounds
    ∙ ap not (same_any inbounds h)
    ∙ sym (
        collect_inbounds-is_built inbound_of skippable rejected
          (λ i vs k. one_kept i.protocol i.settings i.tls vs k)
          (λ i rest k. one_rejected i.protocol i.settings i.tls rest k) _ inbounds)
