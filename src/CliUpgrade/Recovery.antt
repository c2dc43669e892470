-- ===== src/CliUpgrade/Recovery.antt =====
-- What an upgrade that reports a rollback leaves.
use multi_proxy_panel.Prelude.{
  ℕ, ◌≡◌, refl, sym, ap, ◌∙◌, false≢true, String, Bool, true, false, Option, none, some, Bool-cases,
  inl, inr, if◌then◌else◌,
}
use multi_proxy_panel.Db.{Result, ok, err, Env, raise, done}
use multi_proxy_panel.Db.Runs.{Pred, Runs, Runs-pure, Runs-gets, Runs-bind, Runs-weaken, Runs-if}
use multi_proxy_panel.CliUpgrade.{
  Tree, copied, Machine, Left, Component, step, put_binary, put_web, remove_binary, remove_web,
  restore_binary, restore_web, restart_and_wait, when_running,
}

pub Runs-step :
    {pre post fail : Pred Machine} (good : Machine → Machine) (bad : ℕ → Machine → Machine)
    → ((e : Env) (m : Machine) (n : ℕ) → pre e m → fail e (bad n m))
    → ((e : Env) (m : Machine) → pre e m → post e (good m))
    → Runs pre (step good bad) (λ u. post) fail
unfolding step
Runs-step good bad broken carried_out = record {
  from = λ c p. elim (Bool-cases (c.env.fails c.asked)) [
    | inl e ↦ rw e (broken c.env c.tables c.asked p)
    | inr e ↦ rw e (carried_out c.env c.tables p)
  ];
}

-- What the upgrade found: the binary, the console, and whether the service was running.
module _ (b0 : Option String) (w0 : Option Tree) (a0 : Bool) where
  -- The backup of the binary is good.
  abbrev pub BinarySaved : Bool → Option String → Type 0
  BinarySaved true backup = backup ≡ b0
  BinarySaved false backup = b0 ≡ none

  -- The same of the console, which stays where it is if the component has none.
  abbrev pub WebSaved : Bool → Bool → Option Tree → Option Tree → Type 0
  WebSaved true true backup web = backup ≡ w0
  WebSaved true false backup web = w0 ≡ none
  WebSaved false saved backup web = web ≡ w0

  -- The service was running if it was stopped for the upgrade, and was not touched if not.
  abbrev pub ServiceKept : Bool → Bool → Type 0
  ServiceKept true active = a0 ≡ true
  ServiceKept false active = active ≡ a0

  abbrev pub Saved : Component → Bool → Bool → Bool → Pred Machine
  Saved c bb wb was e m =
      BinarySaved bb m.binary_backup
      × (WebSaved c.with_web wb m.web_backup m.web × ServiceKept was m.active)

  pub WebSaved-aside :
      (w b : Bool) (backup x y : Option Tree)
      → w ≡ true
      → WebSaved w b backup x
      → WebSaved w b backup y
  WebSaved-aside true true backup x y t h = h
  WebSaved-aside true false backup x y t h = h
  WebSaved-aside false b backup x y t h = absurd (false≢true t)

  abbrev pub Restored : Machine → Type 0
  Restored m = (m.binary ≡ b0) × (m.web ≡ w0) × (m.active ≡ a0)

  -- What holds if the part has succeeded.
  abbrev pub OkThen : Result (Unit {0}) → Type 0 → Type 0
  OkThen (ok u) P = P
  OkThen (err e) P = Unit

  module _ (left : Left) (c : Component) (bb wb was : Bool) where
    pub restore_binary-Runs :
        Runs
          (Saved c bb wb was)
          (restore_binary left bb)
          (λ u e m. Saved c bb wb was e m × (m.binary ≡ b0))
          (Saved c bb wb was)
    unfolding restore_binary remove_binary put_binary raise
    restore_binary-Runs = Runs-bind _ _ (Runs-gets (λ m. m.binary)) λ there.
        Runs-bind {mid = λ u e m. Saved c bb wb was e m × (m.binary ≡ none)} _ _ (removed there)
          λ u. Runs-bind _ _ (Runs-gets (λ m. m.binary_backup)) λ saved. put bb saved
      where
        removed :
            (there : Option String)
            → Runs
                (λ e m. Saved c bb wb was e m × (there ≡ m.binary))
                (remove_binary left there)
                (λ u e m. Saved c bb wb was e m × (m.binary ≡ none))
                (Saved c bb wb was)
        removed none =
            Runs-weaken {post = λ u e m. Saved c bb wb was e m × (m.binary ≡ none)} _ (Runs-pure tt)
              (λ e m p. (p.0, sym p.1)) (λ a e m p. p)
        removed (some b) = Runs-step _ _ (λ e m n p. p.0) (λ e m p. (p.0, refl))

        put :
            (b : Bool) (saved : Option String)
            → Runs
                (λ e m. (Saved c b wb was e m × (m.binary ≡ none)) × (saved ≡ m.binary_backup))
                (if b then put_binary left saved else done)
                (λ u e m. Saved c b wb was e m × (m.binary ≡ b0))
                (Saved c b wb was)
        put false saved =
            Runs-weaken {post = λ u e m. Saved c false wb was e m × (m.binary ≡ b0)} _
              (Runs-pure tt) (λ e m p. (p.0.0, p.0.1 ∙ sym p.0.0.0)) (λ a e m p. p)
        put true none = record { from = λ x p. p.0.0 }
        put true (some b) = Runs-step _ _ (λ e m n p. p.0.0) (λ e m p. (p.0.0, p.1 ∙ p.0.0.0))

    module _ (B : Option String → Type 0) where
      abbrev Web : Pred Machine
      Web e m = Saved c bb wb was e m × B m.binary

      restore_web-Runs :
          c.with_web ≡ true → Runs Web (restore_web left wb) (λ u e m. Web e m × (m.web ≡ w0)) Web
      unfolding restore_web remove_web put_web copied raise
      restore_web-Runs has = Runs-bind _ _ (Runs-gets (λ m. m.web)) λ there.
          Runs-bind {mid = λ u e m. Web e m × (m.web ≡ none)} _ _ (removed there) λ u.
            Runs-bind _ _ (Runs-gets (λ m. m.web_backup)) λ saved.
              Runs-if wb _ _ (λ t. put saved t)
                (λ t.
                  Runs-weaken {post = λ u e m. Web e m × (m.web ≡ w0)} _ (Runs-pure tt)
                    (λ e m p. (p.0.0, p.0.1 ∙ sym (gone c.with_web wb _ _ has t p.0.0.0.1.0)))
                    (λ a e m p. p))
        where
          keep : (e : Env) (m : Machine) (t : Option Tree) → Web e m → Web e (record m { web = t })
          keep e m t p = (
            (p.0.0, (WebSaved-aside c.with_web wb m.web_backup m.web t has p.0.1.0, p.0.1.1)),
            p.1,
          )

          gone :
              (w b : Bool) (backup web : Option Tree)
              → w ≡ true
              → b ≡ false
              → WebSaved w b backup web
              → w0 ≡ none
          gone true false backup web h t p = p
          gone true true backup web h t p = absurd (false≢true (sym t))
          gone false b backup web h t p = absurd (false≢true h)

          there_is :
              (w b : Bool) (backup web : Option Tree)
              → w ≡ true
              → b ≡ true
              → WebSaved w b backup web
              → backup ≡ w0
          there_is true true backup web h t p = p
          there_is true false backup web h t p = absurd (false≢true t)
          there_is false b backup web h t p = absurd (false≢true h)

          put :
              (saved : Option Tree)
              → wb ≡ true
              → Runs
                  (λ e m. (Web e m × (m.web ≡ none)) × (saved ≡ m.web_backup))
                  (put_web left saved)
                  (λ u e m. Web e m × (m.web ≡ w0))
                  Web
          put none t = record { from = λ x p. p.0.0 }
          put (some t) h =
              Runs-step _ _ (λ e m n p. keep e m _ p.0.0)
                (λ e m p. (
                  keep e m _ p.0.0,
                  ap (λ y. some (copied t y)) p.0.1
                      ∙ (p.1 ∙ there_is c.with_web wb _ _ has h p.0.0.0.1.0),
                ))

          removed :
              (there : Option Tree)
              → Runs
                  (λ e m. Web e m × (there ≡ m.web))
                  (remove_web left there)
                  (λ u e m. Web e m × (m.web ≡ none))
                  Web
          removed none =
              Runs-weaken {post = λ u e m. Web e m × (m.web ≡ none)} _ (Runs-pure tt)
                (λ e m p. (p.0, sym p.1)) (λ a e m p. p)
          removed (some t) =
              Runs-step _ _ (λ e m n p. keep e m _ p.0) (λ e m p. (keep e m _ p.0, refl))

      pub web-Runs :
          Runs Web
            (if c.with_web then restore_web left wb else done)
            (λ u e m. Web e m × (m.web ≡ w0))
            Web
      web-Runs = Runs-if c.with_web _ _ restore_web-Runs (λ t.
          Runs-weaken {post = λ u e m. Web e m × (m.web ≡ w0)} _ (Runs-pure tt)
            (λ e m p. (p, without c.with_web wb _ _ t p.0.1.0)) (λ a e m p. p))
        where
          without :
              (w b : Bool) (backup web : Option Tree)
              → w ≡ false
              → WebSaved w b backup web
              → web ≡ w0
          without false b backup web t p = p
          without true b backup web t p = absurd (false≢true (sym t))

    module _ (G : Option String → Option Tree → Type 0) where
      pub service-Runs :
          (running : Bool)
          → Runs
              (λ e m. G m.binary m.web × ServiceKept running m.active)
              (when_running running (restart_and_wait left))
              (λ u e m. G m.binary m.web × (m.active ≡ a0))
              (λ e m. G m.binary m.web)
      unfolding when_running restart_and_wait
      service-Runs false =
          Runs-weaken {post = λ u e m. G m.binary m.web × (m.active ≡ a0)} _ (Runs-pure tt)
            (λ e m p. p) (λ a e m p. p)
      service-Runs true =
          Runs-bind {mid = λ u e m. G m.binary m.web × (a0 ≡ true)} _ _
            (Runs-step _ _ (λ e m n p. p.0) (λ e m p. p))
            λ u. Runs-step _ _ (λ e m n p. p.0) (λ e m p. (p.0, sym p.1))
