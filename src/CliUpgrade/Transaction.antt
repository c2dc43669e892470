-- ===== src/CliUpgrade/Transaction.antt =====
-- An upgrade that reports a rollback has restored what it found.
use Prim.Native.Nat.{Ordering}
use multi_proxy_panel.Prelude.{
  ◌≡◌, refl, sym, ap, ◌∙◌, false≢true, String, Bool, true, false, Option, none, some, Bool-cases,
  inl, inr, if◌then◌else◌,
}
use multi_proxy_panel.Db.{Result, ok, err, Env, Conn, pure, raise, lift}
use multi_proxy_panel.Db.Runs.{
  Pred, Holds, Runs, Anything, Runs-pure, Runs-gets, Runs-attempt, Runs-bind, Runs-weaken, Runs-if,
  Runs-returned,
}
use multi_proxy_panel.CliUpgrade.{
  Tree, copied, Machine, Left, Component, rolled_back, put_binary, put_web, backup_binary,
  backup_web, remove_web, systemd_stop, restart_and_wait, is_active, when_running,
  installed_version, replace_web, replace_and_verify, install,
}
use multi_proxy_panel.CliUpgrade.Recovery.{
  Runs-step, BinarySaved, WebSaved, WebSaved-aside, ServiceKept,
}
use multi_proxy_panel.CliUpgrade.Rollback.{Kept, Promise, conclude-Runs, stage-Runs}

Runs-lift :
    {A : Type 0} {P fail : Pred Machine} (r : Result A)
    → ((e : Env) (m : Machine) → P e m → fail e m)
    → Runs P (lift r) (λ a. P) fail
unfolding lift
Runs-lift (ok a) h = record { from = λ c p. p }
Runs-lift (err x) h = record { from = λ c p. h c.env c.tables p }

module _ (b0 : Option String) (w0 : Option Tree) (a0 : Bool) (left : Left) (c : Component)
    (compare : String → String → Result Ordering) (version_of : String → Result String) where
  module _ (bb wb was : Bool) where
    abbrev Inv : Pred Machine
    Inv = Kept b0 w0 a0 c bb wb was

    aside :
        (e : Env) (m : Machine) (t : Option Tree)
        → c.with_web ≡ true
        → Inv e m
        → Inv e (record m { web = t })
    aside e m t has p =
        (p.0, (WebSaved-aside b0 w0 a0 c.with_web wb m.web_backup m.web t has p.1.0, p.1.1))

    replace_web-Keeps :
        (new_web : Option Tree)
        → c.with_web ≡ true
        → Runs Inv (replace_web left compare version_of new_web) (λ u. Inv) Inv
    unfolding replace_web remove_web put_web raise
    replace_web-Keeps new_web has =
        Runs-bind {mid = λ t. Inv} _ _
          (Runs-weaken _ (Runs-gets (λ m. m.web)) (λ e m p. p) (λ a e m p. p.0))
          λ there. Runs-bind {mid = λ u. Inv} _ _ (removed there) λ u.
            Runs-bind {mid = λ u. Inv} _ _ (Runs-step _ _ (λ e m n p. p) (λ e m p. p))
              λ v. put new_web
      where
        removed : (there : Option Tree) → Runs Inv (remove_web left there) (λ u. Inv) Inv
        removed none = Runs-pure tt
        removed (some t) = Runs-step _ _ (λ e m n p. aside e m _ has p) (λ e m p. aside e m _ has p)

        put : (new : Option Tree) → Runs Inv (put_web left new) (λ u. Inv) Inv
        put none = record { from = λ x p. p }
        put (some t) = Runs-step _ _ (λ e m n p. aside e m _ has p) (λ e m p. aside e m _ has p)

    installed_version-Keeps :
        (there : Option String)
        → Runs Inv (installed_version left compare version_of there) (λ v. Inv) Inv
    unfolding installed_version
    installed_version-Keeps none = Runs-pure none
    installed_version-Keeps (some b) =
        Runs-bind {mid = λ u. Inv} _ _ (Runs-step _ _ (λ e m n p. p) (λ e m p. p)) λ u.
          Runs-bind {mid = λ v. Inv} _ _ (Runs-lift (version_of b) (λ e m p. p))
            λ v. Runs-pure (some v)

    restart-Keeps :
        (running : Bool)
        → running ≡ was
        → Runs Inv (when_running running (restart_and_wait left)) (λ u. Inv) Inv
    unfolding when_running restart_and_wait
    restart-Keeps false eq = Runs-pure tt
    restart-Keeps true eq =
        Runs-bind {mid = λ u. Inv} _ _
          (Runs-step _ _ (λ e m n p. moved e m _ p) (λ e m p. moved e m _ p))
          λ u. Runs-step _ _ (λ e m n p. moved e m _ p) (λ e m p. moved e m _ p)
      where
        service : (w x y : Bool) → true ≡ w → ServiceKept b0 w0 a0 w x → ServiceKept b0 w0 a0 w y
        service true x y t h = h
        service false x y t h = absurd (false≢true (sym t))

        moved : (e : Env) (m : Machine) (a : Bool) → Inv e m → Inv e (record m { active = a })
        moved e m a p = (p.0, (p.1.0, service was m.active a eq p.1.1))

    replace-Keeps :
        (new_binary : String) (new_web : Option Tree) (target : String)
        → Runs Inv
            (replace_and_verify left compare version_of c new_binary new_web target was)
            (λ u. Inv)
            Inv
    unfolding replace_and_verify put_binary
    replace-Keeps new_binary new_web target =
        Runs-bind {mid = λ u. Inv} _ _ (Runs-step _ _ (λ e m n p. p) (λ e m p. p)) λ u.
          Runs-bind {mid = λ u. Inv} _ _ (Runs-step _ _ (λ e m n p. p) (λ e m p. p)) λ v.
            Runs-bind {mid = λ u. Inv} _ _
              (Runs-if c.with_web _ _ (λ has. replace_web-Keeps new_web has) (λ t. Runs-pure tt))
              λ w.
                Runs-bind {mid = λ t. Inv} _ _
                  (Runs-weaken _ (Runs-gets (λ m. m.binary)) (λ e m p. p) (λ a e m p. p.0))
                  λ there. Runs-bind {mid = λ a. Inv} _ _ (installed_version-Keeps there) λ actual.
                    Runs-bind {mid = λ a. Inv} _ _ (Runs-lift _ (λ e m p. p))
                      λ x. restart-Keeps was refl

  abbrev Found : Pred Machine
  Found e m = (m.binary ≡ b0) × ((m.web ≡ w0) × ((m.active ≡ a0) × (m.web_backup ≡ none)))

  abbrev BinaryDone : Bool → Pred Machine
  BinaryDone bb e m =
      BinarySaved b0 w0 a0 bb m.binary_backup
      × ((m.web ≡ w0) × ((m.active ≡ a0) × (m.web_backup ≡ none)))

  abbrev WebDone : Bool → Bool → Pred Machine
  WebDone bb wb e m =
      BinarySaved b0 w0 a0 bb m.binary_backup
      × (WebSaved b0 w0 a0 c.with_web wb m.web_backup m.web × (m.active ≡ a0))

  backup_binary-Runs :
      (old : Option String)
      → Runs (λ e m. Found e m × (old ≡ m.binary)) (backup_binary left old) BinaryDone Anything
  unfolding backup_binary
  backup_binary-Runs none =
      Runs-weaken {post = BinaryDone} _ (Runs-pure false) (λ e m p. (sym p.0.0 ∙ sym p.1, p.0.1))
        (λ a e m p. p)
  backup_binary-Runs (some b) =
      Runs-bind {mid = λ u. BinaryDone true} _ _
        (Runs-step _ _ (λ e m n p. tt) (λ e m p. (p.1 ∙ p.0.0, p.0.1)))
        λ u. Runs-pure {post = BinaryDone} true

  web_saved :
      (w b : Bool) (backup web : Option Tree)
      → w ≡ true
      → b ≡ true
      → backup ≡ w0
      → WebSaved b0 w0 a0 w b backup web
  web_saved true true backup web h t e = e
  web_saved true false backup web h t e = absurd (false≢true t)
  web_saved false b backup web h t e = absurd (false≢true h)

  no_web :
      (w : Bool) (backup web : Option Tree)
      → web ≡ w0
      → (w ≡ true → w0 ≡ none)
      → WebSaved b0 w0 a0 w false backup web
  no_web true backup web e h = h refl
  no_web false backup web e h = e

  backup_web-Runs :
      (bb : Bool) (old : Option Tree)
      → Runs
          (λ e m. BinaryDone bb e m × (old ≡ m.web))
          (if c.with_web then backup_web left old else pure false)
          (WebDone bb)
          Anything
  unfolding backup_web copied
  backup_web-Runs bb old =
      Runs-if c.with_web _ _ (λ has. copy old has)
        (λ t.
          Runs-weaken {post = WebDone bb} _ (Runs-pure false)
            (λ e m p. (
              p.0.0,
              (no_web c.with_web _ _ p.0.1.0 (λ h. absurd (false≢true (sym t ∙ h))), p.0.1.1.0),
            ))
            (λ a e m p. p))
    where
      copy :
          (o : Option Tree)
          → c.with_web ≡ true
          → Runs (λ e m. BinaryDone bb e m × (o ≡ m.web)) (backup_web left o) (WebDone bb) Anything
      copy none has =
          Runs-weaken {post = WebDone bb} _ (Runs-pure false)
            (λ e m p.
              (p.0.0, (no_web c.with_web _ _ p.0.1.0 (λ h. sym (p.1 ∙ p.0.1.0)), p.0.1.1.0)))
            (λ a e m p. p)
      copy (some t) has =
          Runs-bind {mid = λ u. WebDone bb true} _ _
            (Runs-step _ _ (λ e m n p. tt)
              (λ e m p. (
                p.0.0,
                (
                  web_saved c.with_web true _ _ has refl
                      (ap (λ y. some (copied t y)) p.0.1.1.1 ∙ (p.1 ∙ p.0.1.0)),
                  p.0.1.1.0,
                ),
              )))
            λ u. Runs-pure {post = WebDone bb} true

  is_active-Runs :
      (bb wb has : Bool)
      → Runs
          (WebDone bb wb)
          (is_active has)
          (λ was e m. WebDone bb wb e m × (was ≡ true → a0 ≡ true))
          Anything
  unfolding is_active
  is_active-Runs bb wb false = record { from = λ x p. (p, λ t. absurd (false≢true t)) }
  is_active-Runs bb wb true = record {
    from = λ x p. elim (Bool-cases (x.env.fails x.asked)) [
      | inl e ↦ rw e (p, λ t. absurd (false≢true t))
      | inr e ↦ rw e (p, λ t. sym p.1.1 ∙ t)
    ];
  }

  stop-Runs :
      (bb wb was : Bool)
      → Runs
          (λ e m. WebDone bb wb e m × (was ≡ true → a0 ≡ true))
          (when_running was (systemd_stop left))
          (λ u. Kept b0 w0 a0 c bb wb was)
          Anything
  unfolding when_running systemd_stop
  stop-Runs bb wb false =
      Runs-weaken {post = λ u. Kept b0 w0 a0 c bb wb false} _ (Runs-pure tt) (λ e m p. p.0)
        (λ a e m p. p)
  stop-Runs bb wb true = Runs-step _ _ (λ e m n p. tt) (λ e m p. (p.0.0, (p.0.1.0, p.1 refl)))

  install-Runs :
      (target new_binary : String) (new_web : Option Tree)
      → Runs Found
          (install left compare version_of c target new_binary new_web)
          (λ o e m. Promise b0 w0 a0 o m)
          Anything
  unfolding install
  install-Runs target new_binary new_web = Runs-bind _ _ (Runs-gets (λ m. m.binary)) λ old_binary.
      Runs-bind _ _ (backup_binary-Runs old_binary) λ bb.
        Runs-bind _ _ (Runs-gets (λ m. m.web)) λ old_web.
          Runs-bind _ _ (backup_web-Runs bb old_web) λ wb.
            Runs-bind _ _ (is_active-Runs bb wb c.has_unit) λ was.
              Runs-bind _ _ (stop-Runs bb wb was) λ u.
                Runs-bind _ _
                  (stage-Runs b0 w0 a0 left c bb wb was "replacing" (λ e m p. tt) (λ e m l p. p))
                  λ v.
                    Runs-bind {mid = λ r. Kept b0 w0 a0 c bb wb was} _ _
                      (Runs-weaken _
                        (Runs-attempt _ (replace-Keeps bb wb was new_binary new_web target))
                        (λ e m p. p) (either bb wb was))
                      λ r. conclude-Runs b0 w0 a0 left c bb wb was compare version_of r
    where
      either :
          (bb wb was : Bool) (r : Result (Unit {0})) (e : Env) (m : Machine)
          → Holds {A = Unit {0}} (λ u. Kept b0 w0 a0 c bb wb was) (Kept b0 w0 a0 c bb wb was) r e m
          → Kept b0 w0 a0 c bb wb was e m
      either bb wb was (ok u) e m p = p
      either bb wb was (err y) e m p = p

-- Where an installation reports a rollback, the binary, the web console and the state of the
-- service are those that it found, whatever step failed and whatever the failed steps left. There
-- must be no backup of the console under this version yet, as a copy merges into one.
pub install-rolled_back :
    (left : Left) (c : Component) (compare : String → String → Result Ordering)
    (version_of : String → Result String) (target new_binary : String) (new_web : Option Tree)
    (x : Conn Machine)
    → x.tables.web_backup ≡ none
    → (install left compare version_of c target new_binary new_web x).0 ≡ ok rolled_back
    → ((install left compare version_of c target new_binary new_web x).1.tables.binary
        ≡ x.tables.binary)
      × ((install left compare version_of c target new_binary new_web x).1.tables.web
          ≡ x.tables.web)
      × ((install left compare version_of c target new_binary new_web x).1.tables.active
          ≡ x.tables.active)
install-rolled_back left c compare version_of target new_binary new_web x fresh r =
    Runs-returned (install left compare version_of c target new_binary new_web)
      (install-Runs x.tables.binary x.tables.web x.tables.active left c compare version_of target
        new_binary new_web)
      x (refl, (refl, (refl, fresh))) r
