-- ===== src/ConfigGen/Clients.antt =====
-- Whose credentials stand in an inbound.
use multi_proxy_panel.Prelude.{
  suc, ◌≡◌, refl, ap, ◌∙◌, fun_ext, String, Bool, true, false, ◌&&◌, List, [], ◌∷◌, map, any,
  retain, ◌==◌, if◌then◌else◌, arith,
}
use multi_proxy_panel.Db.{ok, Conn, pure, ◌>>=◌}
use multi_proxy_panel.Db.Runs.{NoFail}
use multi_proxy_panel.Hub.{Uuid}
use multi_proxy_panel.Json.{Value, json_array, put}
use multi_proxy_panel.ConfigGen.{
  Tables, Uuids, Client, NodeBinding, ClientGroup, BindingGroup, member_of, is_active_status,
  client_to_protocol_entry, inject_binding_clients, inject_groups, inject_clients_of,
}

pub any-map-retain :
    {A B : Type 0} (q : B → Bool) (f : A → B) (p : A → Bool) (xs : List A)
    → any q (map f (retain p xs)) ≡ any (λ x. p x && q (f x)) xs
any-map-retain q f p [] = refl
any-map-retain q f p (x ∷ xs) = ground (arith, any-map-retain q f p xs)

any-retain : {A : Type 0} (p : A → Bool) (xs : List A) → any (λ x. true) (retain p xs) ≡ any p xs
any-retain p [] = refl
any-retain p (x ∷ xs) = ground (arith, any-retain p xs)

any_none : {A : Type 0} (xs : List A) → any (λ x. false) xs ≡ false
any_none [] = refl
any_none (x ∷ xs) = any_none xs

-- The binding is in this group.
abbrev pub in_group : Tables → NodeBinding → Uuid → Bool
in_group t b g = any (λ x. x.node_binding_id == b.id && x.group_id == g) t.binding_groups

-- The binding shares a group with some client.
abbrev pub has_members : Tables → NodeBinding → Bool
has_members t b = any (λ m. in_group t b m.group_id) t.client_groups

-- The client is active and shares a group with the binding.
abbrev pub authorized : Tables → NodeBinding → Client → Bool
authorized t b c =
    any (λ m. in_group t b m.group_id && m.client_id == c.id) t.client_groups
    && is_active_status c.status

module _ (u : Uuids) where
  abbrev clients_value : String → List Client → Value
  clients_value protocol cs = json_array (map (λ c. client_to_protocol_entry u c protocol) cs)

  -- What is asked for: where there is anyone, the clients that pass a test.
  abbrev pub settings_with : String → Value → List Client → Bool → (Client → Bool) → Value
  settings_with protocol settings cs anyone test =
      if anyone then put "clients" (clients_value protocol (retain test cs)) settings else settings

  same_answer :
      (protocol : String) (settings : Value) (cs : List Client) {a b : Bool} {f g : Client → Bool}
      → a ≡ b
      → ((k : Client) → f k ≡ g k)
      → ok (settings_with protocol settings cs a f) ≡ ok (settings_with protocol settings cs b g)
  same_answer protocol settings cs {b} {f} e h =
      ap (λ x. ok (settings_with protocol settings cs x f)) e
      ∙ ap (λ p. ok (settings_with protocol settings cs b p)) (fun_ext h)

  clients_of :
      (protocol : String) (settings : Value) (ms : List ClientGroup) (c : Conn Tables)
      → NoFail c.env
      → (inject_clients_of u protocol settings (map (λ m. m.client_id) ms) c).0
        ≡ ok (
            settings_with protocol settings c.tables.clients
              (any (λ m. true) ms)
              (λ k. member_of (map (λ m. m.client_id) ms) k.id && is_active_status k.status))
  unfolding inject_clients_of pure ◌>>=◌
  clients_of protocol settings [] c calm = refl
  clients_of protocol settings (m ∷ ms) c calm = rw (calm c.asked) refl

  groups_of :
      (protocol : String) (settings : Value) (gs : List Uuid) (c : Conn Tables)
      → NoFail c.env
      → (inject_groups u protocol settings gs c).0
        ≡ ok (
            settings_with protocol settings c.tables.clients
              (any (λ m. member_of gs m.group_id) c.tables.client_groups)
              (λ k.
                any (λ m. member_of gs m.group_id && m.client_id == k.id) c.tables.client_groups
                && is_active_status k.status))
  unfolding inject_groups pure ◌>>=◌
  groups_of protocol settings [] c calm = rw (any_none c.tables.client_groups) refl
  groups_of protocol settings (g ∷ gs) c calm =
      let shared : ClientGroup → Bool = λ m. member_of (g ∷ gs) m.group_id in
      rw (calm c.asked) (
        clients_of protocol settings (retain shared c.tables.client_groups)
          (record c { asked = suc c.asked }) calm
        ∙ same_answer protocol settings c.tables.clients (any-retain shared c.tables.client_groups)
            (λ k.
              ap (λ b. b && is_active_status k.status)
                (any-map-retain (λ i. i == k.id) (λ m. m.client_id) shared c.tables.client_groups)))

  -- Where no statement fails, the settings get the active clients that share a group with the
  -- binding, and no others, in the order of the table; where no client is in any of the binding's
  -- groups, the settings stay as they are.
  pub inject_binding_clients-Authorized :
      (binding : NodeBinding) (protocol : String) (settings : Value) (c : Conn Tables)
      → NoFail c.env
      → (inject_binding_clients u binding protocol settings c).0
        ≡ ok (
            settings_with protocol settings c.tables.clients
              (has_members c.tables binding)
              (authorized c.tables binding))
  unfolding inject_binding_clients ◌>>=◌
  inject_binding_clients-Authorized binding protocol settings c calm =
      let mine : BindingGroup → Bool = λ x. x.node_binding_id == binding.id in
      let of_group : (g : Uuid)
          → member_of (map (λ x. x.group_id) (retain mine c.tables.binding_groups)) g
            ≡ in_group c.tables binding g =
        λ g. any-map-retain (λ i. i == g) (λ x. x.group_id) mine c.tables.binding_groups in
      rw (calm c.asked) (
        groups_of protocol settings (map (λ x. x.group_id) (retain mine c.tables.binding_groups))
          (record c { asked = suc c.asked }) calm
        ∙ same_answer protocol settings c.tables.clients
            (ap (λ (f : ClientGroup → Bool). any f c.tables.client_groups)
              (fun_ext λ m. of_group m.group_id))
            (λ k.
              ap
                (λ (f : ClientGroup → Bool).
                  any f c.tables.client_groups && is_active_status k.status)
                (fun_ext λ m. ap (λ b. b && m.client_id == k.id) (of_group m.group_id))))
