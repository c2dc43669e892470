-- ===== src/Builder/SingBox/Inbounds.antt =====
-- Which inbounds stand in a sing-box config, and which end it.
use multi_proxy_panel.Prelude.{
  ◌≡◌, refl, sym, ◌∙◌, String, Bool, true, false, not, ◌||◌, List, Option, none, some, Bool-cases,
  inl, inr, arith, is_some, any, false≢true,
}
use multi_proxy_panel.Protocol.{ProtocolType, vless_reality, vless_xhttp, hysteria2, anytls}
use multi_proxy_panel.Json.{Value, get, get_str, put, json_array}
use multi_proxy_panel.Prelude.Text.{is_empty}
use multi_proxy_panel.Settings.{or_else}
use multi_proxy_panel.Builder.{
  InboundConfig, Built, built, refused, is_built, and_build, collect_next,
}
use multi_proxy_panel.Builder.Loop.{
  kept, served, collect_inbounds-served, collect_inbounds-is_built,
}
use multi_proxy_panel.Builder.CoreVersion.{version_gte, effective_singbox_version}
use multi_proxy_panel.Builder.SingBoxTls.{
  reality_from, build_singbox_reality_tls, build_singbox_server_tls,
}
use multi_proxy_panel.Builder.SingBox.{
  build_inbound, inbound_of, vless_with_tls, build_vless_inbound, build_hysteria2_inbound,
  build_anytls_inbound,
}
use multi_proxy_panel.Builder.SingBox.Full.{with_api, skippable, build_full_config}

-- There is no text, or it is empty.
abbrev pub lacks : Option String → Bool
lacks none = true
lacks (some s) = is_empty s

-- An inbound that no sing-box config can hold, whatever its TLS settings.
abbrev pub rejected_as : ProtocolType → Value → Bool
rejected_as vless_xhttp settings = true
rejected_as vless_reality settings =
    lacks (or_else (get_str "reality_dest" settings) (get_str "dest" settings))
    || lacks (or_else (get_str "reality_private_key" settings) (get_str "private_key" settings))
rejected_as hysteria2 settings = false
rejected_as anytls settings = false

abbrev pub rejected : InboundConfig → Bool
rejected i = rejected_as i.protocol i.settings

reality-lacks :
    (settings : Value) (dest key : Option String)
    → not (is_some (reality_from settings dest key)) ≡ lacks dest || lacks key
reality-lacks settings none key = refl
reality-lacks settings (some dest) none = ground arith
reality-lacks settings (some dest) (some key) = ground arith

pub rejected-reality :
    (settings : Value)
    → not (is_some (build_singbox_reality_tls settings)) ≡ rejected_as vless_reality settings
unfolding build_singbox_reality_tls
rejected-reality settings = reality-lacks settings _ _

tls_skipped :
    (tls : Option Value) (f : Value → Value) (vs : List Value)
    → collect_next true (and_build (build_singbox_server_tls tls) (λ o. built (f o))) (built vs)
      ≡ built (kept (and_build (build_singbox_server_tls tls) (λ o. built (f o))) vs)
unfolding build_singbox_server_tls
tls_skipped none f vs = refl
tls_skipped (some tls) f vs = ground arith

reality_kept :
    (inbound : Value) (o : Option Value) (vs : List Value)
    → not (is_some o) ≡ false
    → collect_next false (vless_with_tls inbound o) (built vs)
      ≡ built (kept (vless_with_tls inbound o) vs)
reality_kept inbound none vs h = absurd (false≢true (sym h))
reality_kept inbound (some tls) vs h = refl

reality_rejected :
    (inbound : Value) (o : Option Value) (rest : Built (List Value))
    → not (is_some o) ≡ true
    → is_built (collect_next false (vless_with_tls inbound o) rest) ≡ false
reality_rejected inbound none rest h = refl
reality_rejected inbound (some tls) rest h = absurd (false≢true h)

one_kept :
    (p : ProtocolType) (settings : Value) (tls : Option Value) (vs : List Value)
    → rejected_as p settings ≡ false
    → collect_next (skippable p) (build_inbound p settings tls) (built vs)
      ≡ built (kept (build_inbound p settings tls) vs)
unfolding build_inbound build_vless_inbound build_hysteria2_inbound build_anytls_inbound
one_kept vless_xhttp settings tls vs h = absurd (false≢true (sym h))
one_kept vless_reality settings tls vs h =
    reality_kept _ (build_singbox_reality_tls settings) vs (rejected-reality settings ∙ h)
one_kept hysteria2 settings tls vs h = tls_skipped tls _ vs
one_kept anytls settings tls vs h = tls_skipped tls _ vs

one_rejected :
    (p : ProtocolType) (settings : Value) (tls : Option Value) (rest : Built (List Value))
    → rejected_as p settings ≡ true
    → is_built (collect_next (skippable p) (build_inbound p settings tls) rest) ≡ false
unfolding build_inbound build_vless_inbound build_hysteria2_inbound build_anytls_inbound
one_rejected vless_xhttp settings tls vs h = refl
one_rejected vless_reality settings tls vs h =
    reality_rejected _ (build_singbox_reality_tls settings) vs (rejected-reality settings ∙ h)
one_rejected hysteria2 settings tls vs h = absurd (false≢true h)
one_rejected anytls settings tls vs h = absurd (false≢true h)

keeps :
    (i : InboundConfig) (vs : List Value)
    → rejected i ≡ false
    → collect_next (skippable i.protocol) (inbound_of i) (built vs) ≡ built (kept (inbound_of i) vs)
keeps i vs h = one_kept i.protocol i.settings i.tls vs h

refuses :
    (i : InboundConfig) (rest : Built (List Value))
    → rejected i ≡ true
    → is_built (collect_next (skippable i.protocol) (inbound_of i) rest) ≡ false
refuses i rest h = one_rejected i.protocol i.settings i.tls rest h

abbrev pub inbounds_in : Built Value → Option Value
inbounds_in (built config) = get "inbounds" config
inbounds_in (refused e m) = none

-- A sing-box config is refused exactly where one of the inbounds is vless_xhttp, or is vless_reality
-- and lacks a destination or a private key, or has an empty one: a lack of TLS settings never ends it.
pub build_full_config-Rejected :
    (var : String → Option String) (inbounds : List InboundConfig)
    → is_built (build_full_config var inbounds) ≡ not (any rejected inbounds)
unfolding build_full_config
build_full_config-Rejected var inbounds =
    collect_inbounds-is_built inbound_of skippable rejected keeps refuses _ inbounds

-- Otherwise its inbounds are those that can be built, in their order.
pub build_full_config-served :
    (var : String → Option String) (inbounds : List InboundConfig)
    → any rejected inbounds ≡ false
    → inbounds_in (build_full_config var inbounds) ≡ some (json_array (served inbound_of inbounds))
unfolding build_full_config with_api put get
build_full_config-served var inbounds f =
    rw (collect_inbounds-served inbound_of skippable rejected keeps refuses inbounds f)
      (elim (Bool-cases (version_gte (effective_singbox_version inbounds) "1.14.0")) [
        | inl t ↦ rw t refl
        | inr n ↦ rw n refl
      ])
