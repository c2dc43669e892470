-- ===== src/ConfigGen/RelayRules/Credential.antt =====
-- The relay's credential is that of the relay's client at the exit.
use multi_proxy_panel.Prelude.{
  ◌≡◌, refl, sym, ap, ◌∙◌, String, true, [], ◌∷◌, Option, none, some, Bool-cases, Option-cases, inl,
  inr, false≢true, ℤ, pos, unwrap_or,
}
use multi_proxy_panel.Prelude.Int.{leb_ℤ}
use multi_proxy_panel.Prelude.Text.{is_empty}
use multi_proxy_panel.Json.{Value, text, get, get_str, put, str_or, as_str, get-put-apart}
use multi_proxy_panel.Protocol.{
  ProtocolType, vless_reality, vless_xhttp, hysteria2, anytls, protocol_name,
}
use multi_proxy_panel.Builder.{Built, built, refused, is_built}
use multi_proxy_panel.Builder.SingBox.{vless_user, password_user}
use multi_proxy_panel.Builder.Hop.{
  RelayHop, build_singbox_outbound, singbox_for, str_setting, first_string_setting, flow_of, hides,
  reality_settings, singbox_vless,
}
use multi_proxy_panel.ConfigGen.{
  Uuids, Client, ProtocolConfig, ExitNode, RelayRule, with_limit, int_value, vless_entry,
  client_to_protocol_entry,
}
use multi_proxy_panel.ConfigGen.RelayRules.{relay_hop}

-- The key under which a user's credential stands.
abbrev pub credential_key : ProtocolType → String
credential_key vless_reality = "uuid"
credential_key vless_xhttp = "uuid"
credential_key hysteria2 = "password"
credential_key anytls = "password"

-- The user of the exit's inbound that an injected client becomes.
abbrev pub user_for : ProtocolType → Value → Value
user_for vless_reality c = vless_user c
user_for vless_xhttp c = vless_user c
user_for hysteria2 c = password_user c
user_for anytls c = password_user c

abbrev pub read_built : String → Built Value → Option Value
read_built key (built v) = get key v
read_built key (refused e m) = none

vless_user-uuid : (c : Value) → get "uuid" (vless_user c) ≡ some (text (str_or "id" "" c))
unfolding vless_user put get
vless_user-uuid c = elim (Bool-cases (is_empty (str_or "flow" "" c))) [
  | inl t ↦ rw t refl
  | inr f ↦ rw f refl
]

id_kept : (limit : Option ℤ) (o : Value) → str_or "id" "" (with_limit limit o) ≡ str_or "id" "" o
unfolding get_str
id_kept none o = refl
id_kept (some limit) o = elim (Bool-cases (leb_ℤ limit (pos 0))) [
  | inl t ↦ rw t refl
  | inr f ↦
      rw f
        (ap (λ v. unwrap_or (as_str v) "") (get-put-apart "id" "limitIp" (int_value limit) o refl))
]

-- What every outbound of a reality hop holds, the one that is built does.
reality_reads :
    (key : String) (settings x : Value) (f : String → String → Value)
    → ((k n : String) → get key (f k n) ≡ some x)
    → is_built (reality_settings settings f) ≡ true
    → read_built key (reality_settings settings f) ≡ some x
reality_reads key settings x f reads h =
    elim (Option-cases (str_setting ("public_key" ∷ []) settings)) [
      | inl e ↦ absurd (false≢true (rw e at h))
      | inr (k, e) ↦
          elim (Option-cases
            (first_string_setting ("reality_server_names" ∷ "server_names" ∷ []) settings)) [
              | inl d ↦ absurd (false≢true (rw (e, d) at h))
              | inr (n, d) ↦ rw (e, d) (reads k n)
            ]
    ]

module _ (u : Uuids) where
  abbrev pub injected : ProtocolType → Client → Value
  injected p c = user_for p (client_to_protocol_entry u c (protocol_name p))

  vless_credential :
      (c : Client) (flow : String)
      → get "uuid" (
          vless_user (
            with_limit c.max_devices
              (vless_entry (u.to_text c.id) (unwrap_or c.email (u.to_text c.id)) flow)))
        ≡ some (text (u.to_text c.id))
  unfolding get_str get
  vless_credential c flow =
      let entry = vless_entry (u.to_text c.id) (unwrap_or c.email (u.to_text c.id)) flow in
      vless_user-uuid (with_limit c.max_devices entry)
      ∙ ap (λ s. some (text s)) (id_kept c.max_devices entry)

  user_credential :
      (p : ProtocolType) (c : Client)
      → get (credential_key p) (injected p c) ≡ some (text (u.to_text c.id))
  unfolding client_to_protocol_entry vless_user password_user get protocol_name
  user_credential vless_reality c = vless_credential c "xtls-rprx-vision"
  user_credential vless_xhttp c = vless_credential c ""
  user_credential hysteria2 c = refl
  user_credential anytls c = refl

  hop_credential :
      (hop : RelayHop) (p : ProtocolType)
      → is_built (singbox_for hop p) ≡ true
      → read_built (credential_key p) (singbox_for hop p) ≡ some (text hop.credential)
  unfolding get put
  hop_credential hop vless_reality h =
      reality_reads "uuid" hop.settings (text hop.credential) (singbox_vless hop)
        (λ k n. elim (Bool-cases (is_empty (flow_of hop.settings))) [
          | inl t ↦ rw t refl
          | inr f ↦ rw f refl
        ])
        h
  hop_credential hop vless_xhttp h = absurd (false≢true h)
  hop_credential hop hysteria2 h = elim (Option-cases hop.tls_sni) [
    | inl e ↦ absurd (false≢true (rw e at h))
    | inr (sni, e) ↦
        rw e (elim (Bool-cases (hides hop.settings)) [ inl t ↦ rw t refl | inr f ↦ rw f refl ])
  ]
  hop_credential hop anytls h = elim (Option-cases hop.tls_sni) [
    | inl e ↦ absurd (false≢true (rw e at h))
    | inr (sni, e) ↦ rw e refl
  ]

  -- An outbound of sing-box that is built for the exit of a relay rule carries the credential which
  -- the inbound of the exit gives to the rule's client. What else the two hold may differ.
  pub relay_hop-credential :
      (rule : RelayRule) (exit_cfg : ProtocolConfig) (exit_node : ExitNode)
      (protocol : ProtocolType) (tls_sni : Option String) (c : Client)
      → c.id ≡ rule.relay_client_id
      → is_built (build_singbox_outbound (relay_hop u rule exit_cfg exit_node protocol tls_sni))
        ≡ true
      → read_built
          (credential_key protocol)
          (build_singbox_outbound (relay_hop u rule exit_cfg exit_node protocol tls_sni))
        ≡ get (credential_key protocol) (injected protocol c)
  unfolding build_singbox_outbound relay_hop
  relay_hop-credential rule exit_cfg exit_node protocol tls_sni c same h =
      hop_credential (relay_hop u rule exit_cfg exit_node protocol tls_sni) protocol h
      ∙ ap (λ i. some (text (u.to_text i))) (sym same)
      ∙ sym (user_credential protocol c)
