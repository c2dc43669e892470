-- ===== src/ConfigGen/Certificates.antt =====
-- The managed certificate of an inbound.
use multi_proxy_panel.Prelude.{
  ◌≡◌, refl, String, Bool, true, Option, none, some, ◌==◌, Bool-cases, inl, inr, ◌⊎◌, In, Just,
  find-Just, find, suc, [], ◌∷◌, ==_iff, Option-cases,
}
use multi_proxy_panel.Db.{Result, ok, err, Conn, pure, lift, ◌>>=◌}
use multi_proxy_panel.Hub.{Uuid}
use multi_proxy_panel.Json.{Value, text, json_object, get, as_str}
use multi_proxy_panel.ConfigGen.{
  Tables, Uuids, Certificate, owned, present, resolve_cert, resolve_managed_cert_tls,
}

-- A result that is given satisfies this.
abbrev pub Given : {A : Type 0} → (A → Type 0) → Result A → Type 0
Given P (ok a) = P a
Given P (err e) = Unit

abbrev pub cert_id_of : Option Value → Option String
cert_id_of none = none
cert_id_of (some tls) = as_str (get "cert_id" tls)

-- The settings name no certificate and are as given, or they name the domain of a certificate of
-- this node.
abbrev pub IsOwn : Tables → Uuid → Option Value → Option Value → Type 0
IsOwn t node_id given resolved =
    ((resolved ≡ given) × (cert_id_of given ≡ none))
    ⊎ ((cert : Certificate) × In cert t.certificates
        × (cert.node_id ≡ node_id)
        × (resolved ≡ some (json_object (("managed_domain", text cert.domain) ∷ []))))

module _ (u : Uuids) where
  owned-IsOwn :
      (t : Tables) (node_id : Uuid) (given : Option Value) (cert : Certificate)
      → In cert t.certificates
      → Given (IsOwn t node_id given) (owned u node_id cert)
  owned-IsOwn t node_id given cert m = elim (Bool-cases (cert.node_id == node_id)) [
    | inl e ↦ rw e (inr (cert, m, (==_iff cert.node_id node_id).0 e, refl))
    | inr d ↦ rw d tt
  ]

  found-IsOwn :
      (t : Tables) (node_id : Uuid) (given : Option Value) (o : Option Certificate)
      (p : Certificate → Bool)
      → Just (λ x. In x t.certificates × (p x ≡ true)) o
      → (asked : Conn Tables)
      → Given
          (IsOwn t node_id given)
          ((lift (present o) >>= λ cert. lift (owned u node_id cert)) asked).0
  unfolding ◌>>=◌
  found-IsOwn t node_id given none p h asked = tt
  found-IsOwn t node_id given (some cert) p h asked = owned-IsOwn t node_id given cert h.0

  parsed-IsOwn :
      (node_id : Uuid) (tls : Value) (raw : String) (c : Conn Tables)
      → Given (IsOwn c.tables node_id (some tls)) (resolve_cert u node_id tls (some raw) c).0
  unfolding resolve_cert ◌>>=◌
  parsed-IsOwn node_id tls raw c = elim (Option-cases (u.parse_str raw)) [
    | inl e ↦ rw e tt
    | inr (id, e) ↦ elim (Bool-cases (c.env.fails c.asked)) [
      | inl bad ↦ rw (e, bad) tt
      | inr good ↦
          rw (e, good)
            (found-IsOwn c.tables node_id (some tls) (find (λ k. k.id == id) c.tables.certificates)
              (λ k. k.id == id) (find-Just (λ k. k.id == id) c.tables.certificates)
              (record c { asked = suc c.asked }))
    ]
  ]

  -- TLS settings that are resolved either are the given ones, which name no certificate, or hold the domain of a certificate of
  -- the node that the config is for.
  pub resolve_managed_cert_tls-IsOwn :
      (node_id : Uuid) (tls : Option Value) (c : Conn Tables)
      → Given (IsOwn c.tables node_id tls) (resolve_managed_cert_tls u node_id tls c).0
  unfolding resolve_managed_cert_tls resolve_cert pure
  resolve_managed_cert_tls-IsOwn node_id none c = inl (refl, refl)
  resolve_managed_cert_tls-IsOwn node_id (some tls) c =
      elim (Option-cases (as_str (get "cert_id" tls))) [
        | inl e ↦ rw e (inl (refl, e))
        | inr (raw, e) ↦ rw e (parsed-IsOwn node_id tls raw c)
      ]
