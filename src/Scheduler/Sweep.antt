-- ===== src/Scheduler/Sweep.antt =====
-- A check that goes through the client rows of some statuses and updates those that need it: the shape
-- that the checks of crates/pp-hub/src/service/scheduler.rs share.
use multi_proxy_panel.Prelude.{
  ℕ, ◌≡◌, refl, sym, ap, ◌∙◌, subst, String, Bool, true, false, false≢true, List, [], ◌∷◌, ◌==◌,
  ==_refl, All, In, In-retain, retain, inl, inr, ◌⊎◌,
}
use multi_proxy_panel.Db.{Env, Sql, select, utc_now, ◌>>=◌, ◌>>◌}
use multi_proxy_panel.Db.Runs.{
  Pred, Runs, Anything, Runs-statement, Runs-bind, Runs-utc_now, Runs-weaken,
}
use multi_proxy_panel.Hub.{Hub, Uuid, Time, Client, Status, update_client}
use multi_proxy_panel.Hub.Rows.{log_event-Keeps, trigger_event-Keeps, update_client-Runs}
use multi_proxy_panel.Hub.Events.{log_event, trigger_event}

-- An update of one client, with its log entry and its webhooks.
abbrev pub change : Uuid → (Client → Client) → String → Sql Hub (Unit {0})
change id f event = do update_client id f; log_event event id; trigger_event event id

pub change-Runs :
    (K : Env → Type 0) (P Q : Env → Client → Type 0) (id : Uuid) (f : Client → Client)
    (event : String)
    → ((e : Env) (c : Client) → (c.id == id) ≡ true → P e c → Q e (f c))
    → ((e : Env) (c : Client) → (c.id == id) ≡ false → P e c → Q e c)
    → Runs
        (λ e h. K e × All (P e) h.clients)
        (change id f event)
        (λ u e h. K e × All (Q e) h.clients)
        Anything
change-Runs K P Q id f event there other =
    Runs-bind _ _ (update_client-Runs K P Q (λ e h p. tt) id _ there other) λ u.
      Runs-bind _ _ (log_event-Keeps (λ e cs. K e × All (Q e) cs) (λ e h p. tt) event id)
        λ v. trigger_event-Keeps (λ e cs. K e × All (Q e) cs) (λ e h p. tt) event id

module _ (K : Env → Type 0) (wants : Status → Bool) (Good : Client → Type 0) where
  -- A row with a status that is looked for is still to be looked at, or good.
  abbrev pub Pending : List Client → Client → Type 0
  Pending cs r = wants r.status ≡ true → In r cs ⊎ Good r

  abbrev pub Left : List Client → Pred Hub
  Left cs e h = K e × All (Pending cs) h.clients

  abbrev pub Swept : Client → Type 0
  Swept r = wants r.status ≡ true → Good r

  pub next :
      (c : Client) (cs : List Client)
      → Good c
      → (rs : List Client) → All (Pending (c ∷ cs)) rs
      → All (Pending cs) rs
  next c cs good [] h = tt
  next c cs good (r ∷ rs) h = (
    λ a. elim (h.0 a) [
      | inl (inl eq) ↦ inr (subst Good (sym eq) good)
      | inl (inr m) ↦ inl m
      | inr f ↦ inr f
    ],
    next c cs good rs h.1,
  )

  skip :
      (c : Client) (cs : List Client) (r : Client)
      → (r.id == c.id) ≡ false
      → Pending (c ∷ cs) r
      → Pending cs r
  skip c cs r ne h a = elim (h a) [
    | inl (inl eq) ↦
        absurd (false≢true (sym ne ∙ (ap (λ (x : Client). x.id == c.id) eq ∙ ==_refl c.id)))
    | inl (inr m) ↦ inl m
    | inr f ↦ inr f
  ]

  -- A client whose update makes its rows good, or gives them a status that is not looked for, is done.
  pub settled :
      (c : Client) (cs : List Client) (f : Client → Client) (event : String)
      → ((r : Client) → wants (f r).status ≡ true → Good (f r))
      → Runs (Left (c ∷ cs)) (change c.id f event) (λ u. Left cs) Anything
  settled c cs f event good =
      change-Runs K (λ e. Pending (c ∷ cs)) (λ e. Pending cs) c.id f event
        (λ e r same h a. inr (good r a)) (λ e r other h. skip c cs r other h)

  All-Pending :
      (rs ds : List Client)
      → ((r : Client) → In r rs → In r ds)
      → All (Pending (retain (λ c. wants c.status) ds)) rs
  All-Pending [] ds sub = tt
  All-Pending (r ∷ rs) ds sub = (
    λ a. inl (In-retain (λ (c : Client). wants c.status) ds (sub r (inl refl)) a),
    All-Pending rs ds (λ x m. sub x (inr m)),
  )

  -- The rows that a `SELECT` of these statuses gives are those to look at.
  pub selected : (rs : List Client) → All (Pending (retain (λ c. wants c.status) rs)) rs
  selected rs = All-Pending rs rs (λ r m. m)

  pub swept : (rs : List Client) → All (Pending []) rs → All Swept rs
  swept [] h = tt
  swept (r ∷ rs) h = (λ a. elim (h.0 a) [ inl m ↦ absurd m | inr f ↦ f ], swept rs h.1)

module _ (wants : Status → Bool) (Good : Time → Client → Type 0) where
  -- Every row of these statuses is good at a time that the clock has shown.
  abbrev pub SweptOnce : Env → List Client → Type 0
  SweptOnce e rs = (i : ℕ) × All (λ r. wants r.status ≡ true → Good (e.now i) r) rs

  -- A check that reads the rows, then the clock, and goes through the rows.
  pub sweep-Runs :
      {B : Type 0} (loop : Time → List Client → Sql Hub B) (e0 : Env)
      → ((K : Env → Type 0) (now : Time) (cs : List Client)
          → Runs
              (Left K wants (Good now) cs)
              (loop now cs)
              (λ b. Left K wants (Good now) [])
              Anything)
      → Runs
          (λ e h. e ≡ e0)
          (select (λ h. h.clients) (λ c. wants c.status) >>= λ cs. utc_now >>= λ now. loop now cs)
          (λ b e h. SweptOnce e0 h.clients)
          Anything
  sweep-Runs loop e0 runs =
      Runs-bind {mid = λ cs e h. (e ≡ e0) × (cs ≡ retain (λ c. wants c.status) h.clients)} _ _
        (Runs-statement _ (λ e h p. tt) (λ e h p. (p, refl)))
        λ cs. Runs-bind _ _ Runs-utc_now λ now.
          Runs-weaken _ (runs (λ e. (i : ℕ) × (now ≡ e0.now i)) now cs)
            (λ e h p. (
              (p.1.0, p.1.1 ∙ ap (λ (x : Env). x.now p.1.0) p.0.0),
              subst (λ x. All (Pending (λ e. Unit {0}) wants (Good now) x) h.clients) (sym p.0.1)
                  (selected (λ e. Unit {0}) wants (Good now) h.clients),
            ))
            (λ b e h p. (
              p.0.0,
              subst (λ n. All (λ r. wants r.status ≡ true → Good n r) h.clients) p.0.1
                  (swept (λ e. Unit {0}) wants (Good now) h.clients p.1),
            ))
