-- ===== src/Subscription/Nodes/Credential.antt =====
-- The password that a client's links carry.
use multi_proxy_panel.Prelude.{
  ◌≡◌, refl, sym, ap, ◌∙◌, String, str_eq, starts_with, true, false, ◌||◌, List, [], ◌∷◌, ◌++◌,
  Option, none, some, unwrap_or, inl, inr, ◌⊎◌, false≢true, arith,
}
use multi_proxy_panel.Prelude.Text.{is_empty}
use multi_proxy_panel.Json.{
  Value, Items, no_items, item, text, array, object, null, boolean, number, other_number, get,
  as_str, json_array, json_object, put, to_list, IsObject, get-put, get-put-apart,
}
use multi_proxy_panel.Settings.{or_else, non_empty, first_client, client_password}
use multi_proxy_panel.ConfigGen.{Uuids}
use multi_proxy_panel.Subscription.Nodes.{
  Client, push_client, with_clients, inject_client_credentials,
}

-- The first entry's password, or the one of the settings themselves.
abbrev password_in : Value → Value → Option String
password_in entry settings =
    or_else (non_empty (as_str (get "password" entry)))
      (non_empty (as_str (get "password" settings)))

password-of :
    (entry : Value) (rest : List Value) (settings : Value)
    → IsObject settings
    → client_password (put "clients" (json_array (entry ∷ rest)) settings)
      ≡ password_in entry settings
unfolding client_password
password-of entry rest settings o =
    rw
      (
        get-put "clients" (json_array (entry ∷ rest)) settings o,
        get-put-apart "password" "clients" (json_array (entry ∷ rest)) settings refl,
        client_password,
        first_client,
      )
      refl

push_client-onto :
    (entry : Value) (vs : Items) (settings : Value)
    → get "clients" settings ≡ some (array vs)
    → push_client entry settings ≡ put "clients" (json_array (to_list vs ++ entry ∷ [])) settings
push_client-onto entry vs settings e = rw (e, push_client) refl

with_clients-had :
    (v settings : Value) → get "clients" settings ≡ some v → with_clients settings ≡ settings
with_clients-had v settings e = rw (e, with_clients) refl

with_clients-new :
    (settings : Value)
    → get "clients" settings ≡ none
    → with_clients settings ≡ put "clients" (json_array []) settings
with_clients-new settings e = rw (e, with_clients) refl

IsObject-put : (v o : Value) → IsObject o → IsObject (put "clients" v o)
unfolding put
IsObject-put v (object fs) h = refl
IsObject-put v null h = absurd (false≢true h)
IsObject-put v (boolean b) h = absurd (false≢true h)
IsObject-put v (number n) h = absurd (false≢true h)
IsObject-put v other_number h = absurd (false≢true h)
IsObject-put v (text s) h = absurd (false≢true h)
IsObject-put v (array xs) h = absurd (false≢true h)

module _ (u : Uuids) (c : Client) where
  abbrev pub entry_of : Value
  entry_of =
      json_object
        (("name", text (unwrap_or c.email c.name)) ∷ ("password", text (u.to_text c.id)) ∷ [])

  inject-pushes :
      (p : String) (settings : Value)
      → starts_with p "vless" ≡ false
      → str_eq p "hysteria2" || str_eq p "anytls" ≡ true
      → inject_client_credentials u c p settings ≡ push_client entry_of (with_clients settings)
  unfolding inject_client_credentials
  inject-pushes p settings v h = ground arith

  -- The clients array of the settings, or an empty one where they have none.
  abbrev pub HasClients : Value → Items → Type 0
  HasClients settings vs =
      (get "clients" settings ≡ some (array vs))
      ⊎ ((get "clients" settings ≡ none) × (vs ≡ no_items))

  injected :
      (p : String) (settings : Value) (vs : Items)
      → starts_with p "vless" ≡ false
      → str_eq p "hysteria2" || str_eq p "anytls" ≡ true
      → IsObject settings
      → HasClients settings vs
      → (o : Value) × IsObject o
        × (get "password" o ≡ get "password" settings)
        × (inject_client_credentials u c p settings
            ≡ put "clients" (json_array (to_list vs ++ entry_of ∷ [])) o)
  injected p settings vs v h o (inl e) = (
    settings,
    o,
    refl,
    inject-pushes p settings v h
        ∙ ap (push_client entry_of) (with_clients-had (array vs) settings e)
        ∙ push_client-onto entry_of vs settings e,
  )
  injected p settings vs v h o (inr (e, n)) =
      let made = put "clients" (json_array []) settings in
      (
        made,
        IsObject-put (json_array []) settings o,
        get-put-apart "password" "clients" (json_array []) settings refl,
        inject-pushes p settings v h
            ∙ ap (push_client entry_of) (with_clients-new settings e)
            ∙ push_client-onto entry_of no_items made (get-put "clients" (json_array []) settings o)
            ∙ ap (λ ws. put "clients" (json_array (to_list ws ++ entry_of ∷ [])) made) (sym n),
      )

  -- With no stored client the client's id, else what the first stored client has.
  abbrev pub carried : Items → Value → Option String
  carried no_items settings = some (u.to_text c.id)
  carried (item v vs) settings = password_in v settings

  own :
      (settings : Value)
      → is_empty (u.to_text c.id) ≡ false
      → password_in entry_of settings ≡ some (u.to_text c.id)
  unfolding get
  own settings h = rw h refl

  carried-by :
      (vs : Items) (settings o : Value)
      → is_empty (u.to_text c.id) ≡ false
      → IsObject o
      → get "password" o ≡ get "password" settings
      → client_password (put "clients" (json_array (to_list vs ++ entry_of ∷ [])) o)
        ≡ carried vs settings
  carried-by no_items settings o h i e = password-of entry_of [] o i ∙ own o h
  carried-by (item v vs) settings o h i e =
      password-of v (to_list vs ++ entry_of ∷ []) o i
      ∙ ap (λ p. or_else (non_empty (as_str (get "password" v))) (non_empty (as_str p))) e

-- The password that is read from the settings with the client's credentials.
pub inject_client_credentials-password :
    (u : Uuids) (c : Client) (protocol : String) (settings : Value) (stored : Items)
    → starts_with protocol "vless" ≡ false
    → str_eq protocol "hysteria2" || str_eq protocol "anytls" ≡ true
    → IsObject settings
    → HasClients u c settings stored
    → is_empty (u.to_text c.id) ≡ false
    → client_password (inject_client_credentials u c protocol settings)
      ≡ carried u c stored settings
inject_client_credentials-password u c protocol settings stored v h o has named =
    let (made, i, same, e) = injected u c protocol settings stored v h o has in
    ap client_password e ∙ carried-by u c stored settings made named i same
