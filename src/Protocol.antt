-- ===== src/Protocol.antt =====
-- The protocols and cores of crates/pp-common/src/protocol.rs, and their spelling.
mod Tests
use multi_proxy_panel.Prelude.{
  ℕ, ◌*◌, ◌%◌, ◌^◌, ◌≤◌, ◌<◌, ◌≡◌, ◌↔◌, refl, ap, String, str_eq, Bool, true, false, ◌||◌, List, [],
  ◌∷◌, Option, none, some, In, inl, inr, if◌then◌else◌, eq_iff, ◌∙◌, subst, unwrap_or, is_some,
  false≢true, eq_refl, Bool-cases, arith,
}

pub data ProtocolType : Type 0 where
  vless_reality vless_xhttp hysteria2 anytls : ProtocolType

pub data CoreType : Type 0 where
  sing_box mihomo : CoreType

unfoldable pub protocol_name : ProtocolType → String
protocol_name vless_reality = "vless_reality"
protocol_name vless_xhttp = "vless_xhttp"
protocol_name hysteria2 = "hysteria2"
protocol_name anytls = "anytls"

-- Where no arm matches, the source answers an error that quotes the text.
unfoldable pub parse_protocol : String → Option ProtocolType
parse_protocol s =
    if str_eq s "vless_reality"
    then some vless_reality
    else if str_eq s "vless_xhttp"
    then some vless_xhttp
    else if str_eq s "hysteria2"
    then some hysteria2
    else if str_eq s "anytls"
    then some anytls
    else none

unfoldable pub core_name : CoreType → String
core_name sing_box = "sing-box"
core_name mihomo = "mihomo"

unfoldable pub parse_core : String → Option CoreType
parse_core s =
    if str_eq s "sing-box" || str_eq s "singbox"
    then some sing_box
    else if str_eq s "mihomo"
    then some mihomo
    else none

unfoldable pub valid_for : ProtocolType → List CoreType
valid_for vless_reality = sing_box ∷ mihomo ∷ []
valid_for vless_xhttp = mihomo ∷ []
valid_for hysteria2 = sing_box ∷ mihomo ∷ []
valid_for anytls = sing_box ∷ mihomo ∷ []

abbrev pub same_core : CoreType → CoreType → Bool
same_core sing_box sing_box = true
same_core mihomo mihomo = true
same_core _ _ = false

-- One arm of the match on a text.
arm :
    (s : String) (q : ProtocolType) (rest : Option ProtocolType) (p : ProtocolType)
    → (rest ≡ some p → s ≡ protocol_name p)
    → (if str_eq s (protocol_name q) then some q else rest) ≡ some p
    → s ≡ protocol_name p
arm s q rest p next e = elim (Bool-cases (str_eq s (protocol_name q))) [
  | inl t ↦
      (eq_iff s (protocol_name q)).0 t
      ∙ ap (λ o. protocol_name (unwrap_or o q))
          (subst (λ b. (if b then some q else rest) ≡ some p) t e)
  | inr t ↦ next (subst (λ b. (if b then some q else rest) ≡ some p) t e)
]

parse_name : (p : ProtocolType) → parse_protocol (protocol_name p) ≡ some p
unfolding parse_protocol protocol_name
parse_name vless_reality = refl
parse_name vless_xhttp = refl
parse_name hysteria2 = refl
parse_name anytls = refl

-- A text is read as a protocol exactly where it is the protocol's name.
pub parse_protocol_iff :
    (s : String) (p : ProtocolType) → (parse_protocol s ≡ some p) ↔ (s ≡ protocol_name p)
unfolding parse_protocol protocol_name
parse_protocol_iff s p = (
  arm s vless_reality _ p (
      arm s vless_xhttp _ p
        (arm s hysteria2 _ p (arm s anytls none p (λ e. absurd (false≢true (ap is_some e)))))),
  λ e. rw e (parse_name p),
)

pub parse_core-name : (c : CoreType) → parse_core (core_name c) ≡ some c
unfolding parse_core core_name
parse_core-name sing_box = refl
parse_core-name mihomo = refl

pub data TrafficUnit : Type 0 where
  bytes kib mib gib tib : TrafficUnit

-- The number of bytes, on `u64`: a product that does not fit wraps.
unfoldable pub to_bytes : TrafficUnit → ℕ → ℕ
to_bytes bytes value = value
to_bytes kib value = value * 1024 % 2 ^ 64
to_bytes mib value = value * 1024 % 2 ^ 64 * 1024 % 2 ^ 64
to_bytes gib value = value * 1024 % 2 ^ 64 * 1024 % 2 ^ 64 * 1024 % 2 ^ 64
to_bytes tib value = value * 1024 % 2 ^ 64 * 1024 % 2 ^ 64 * 1024 % 2 ^ 64 * 1024 % 2 ^ 64
