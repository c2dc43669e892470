-- ===== src/Db/Post.antt =====
-- What holds after a handler: splits on the outcome of each of its parts.
use multi_proxy_panel.Prelude.{suc, ◌≡◌, refl, false, inl, inr, Bool-cases}
use multi_proxy_panel.Db.{
  PanelError, database, Result, ok, err, Conn, Sql, statement, continue, ◌>>=◌,
}

module _ {T A B : Type 0} where
  -- The second part runs where the first one returns.
  pub bind-post :
      (Q : Result B × Conn T → Type 0) (m : Sql T A) (f : A → Sql T B) (c : Conn T)
      → ((e : PanelError) (d : Conn T) → m c ≡ (err e, d) → Q (err e, d))
      → ((a : A) (d : Conn T) → m c ≡ (ok a, d) → Q (f a d))
      → Q ((m >>= f) c)
  unfolding ◌>>=◌
  bind-post Q m f c failed returned = after (m c).0 (m c).1 failed returned
    where
      after :
          (r : Result A) (d : Conn T)
          → ((e : PanelError) (x : Conn T)
              → ◌≡◌ {A = Result A × Conn T} (r, d) (err e, x)
              → Q (err e, x))
          → ((a : A) (x : Conn T) → ◌≡◌ {A = Result A × Conn T} (r, d) (ok a, x) → Q (f a x))
          → Q (continue r f d)
      after (ok a) d failed returned = returned a d refl
      after (err e) d failed returned = failed e d refl

module _ {T A : Type 0} where
  -- A statement fails and changes no table, or is carried out.
  pub statement-post :
      (Q : Result A × Conn T → Type 0) (f : T → Result A × T) (c : Conn T)
      → Q (err database, record c { asked = suc c.asked })
      → (c.env.fails c.asked ≡ false
          → Q ((f c.tables).0, record c { tables = (f c.tables).1; asked = suc c.asked }))
      → Q (statement f c)
  unfolding statement
  statement-post Q f c failed carried_out = elim (Bool-cases (c.env.fails c.asked)) [
    | inl e ↦ rw e failed
    | inr e ↦ rw e (carried_out e)
  ]

module _ {T A B : Type 0} where
  -- A reading statement changes no table.
  pub read-post :
      (Q : Result B × Conn T → Type 0) (g : T → A) (f : A → Sql T B) (c : Conn T)
      → ((e : PanelError) (d : Conn T) → d.tables ≡ c.tables → Q (err e, d))
      → ((d : Conn T) → d.tables ≡ c.tables → Q (f (g c.tables) d))
      → Q ((statement (λ t. (ok (g t), t)) >>= f) c)
  unfolding ◌>>=◌ statement
  read-post Q g f c failed returned = elim (Bool-cases (c.env.fails c.asked)) [
    | inl e ↦ rw e (failed database (record c { asked = suc c.asked }) refl)
    | inr e ↦ rw e (returned (record c { asked = suc c.asked }) refl)
  ]
