-- ===== src/CliUpgrade/Rollback.antt =====
-- The end of an upgrade: what a recovery that succeeds restores.
use Prim.Native.Nat.{Ordering}
use multi_proxy_panel.Prelude.{◌≡◌, String, Bool, List, Option}
use multi_proxy_panel.Db.{Result, ok, err, Env, lift}
use multi_proxy_panel.Db.Runs.{
  Pred, Holds, Runs, Anything, Runs-pure, Runs-attempt, Runs-bind, Runs-weaken,
}
use multi_proxy_panel.CliUpgrade.{
  Tree, Machine, Left, Component, Outcome, rolled_back, unrecovered, succeeded, stage, both_ok,
  recover, recovered, conclude,
}
use multi_proxy_panel.CliUpgrade.Recovery.{
  Runs-step, Saved, Restored, OkThen, restore_binary-Runs, web-Runs, service-Runs,
}

module _ (b0 : Option String) (w0 : Option Tree) (a0 : Bool) where
  abbrev pub Kept : Component → Bool → Bool → Bool → Pred Machine
  Kept = Saved b0 w0 a0

  ok_then :
      (P : Pred Machine) (Q : Machine → Type 0) (r : Result (Unit {0})) (e : Env) (m : Machine)
      → Holds {A = Unit {0}} (λ u e m. P e m × Q m) P r e m
      → P e m × OkThen b0 w0 a0 r (Q m)
  ok_then P Q (ok u) e m h = h
  ok_then P Q (err x) e m h = (h, tt)

  -- What the outcome tells.
  abbrev pub Promise : Outcome → Machine → Type 0
  Promise rolled_back m = Restored b0 w0 a0 m
  Promise _ m = Unit

  module _ (left : Left) (c : Component) (bb wb was : Bool) where
    recover-Runs :
        Runs (Kept c bb wb was) (recover left c bb wb was) (λ u e m. Restored b0 w0 a0 m) Anything
    unfolding recover both_ok lift
    recover-Runs =
        Runs-bind {mid = λ r e m. Kept c bb wb was e m × OkThen b0 w0 a0 r (m.binary ≡ b0)} _ _
          (Runs-weaken _ (Runs-attempt _ (restore_binary-Runs b0 w0 a0 left c bb wb was))
            (λ e m p. p) (λ r e m h. ok_then (Kept c bb wb was) (λ m. m.binary ≡ b0) r e m h))
          λ r1.
            Runs-bind
              {mid = λ r e m.
                (Kept c bb wb was e m × OkThen b0 w0 a0 r1 (m.binary ≡ b0))
                × OkThen b0 w0 a0 r (m.web ≡ w0)}
              _ _
              (Runs-weaken _
                (Runs-attempt _
                  (web-Runs b0 w0 a0 left c bb wb was (λ x. OkThen b0 w0 a0 r1 (x ≡ b0))))
                (λ e m p. p)
                (λ r e m h.
                  ok_then (λ e m. Kept c bb wb was e m × OkThen b0 w0 a0 r1 (m.binary ≡ b0))
                    (λ m. m.web ≡ w0) r e m h))
              λ r2.
                Runs-bind
                  {mid = λ r e m. Both r1 r2 m.binary m.web × OkThen b0 w0 a0 r (m.active ≡ a0)} _ _
                  (Runs-weaken _
                    (Runs-attempt _ (service-Runs b0 w0 a0 left c bb wb was (Both r1 r2) was))
                    (λ e m p. ((p.0.1, p.1), p.0.0.1.1))
                    (λ r e m h.
                      ok_then (λ e m. Both r1 r2 m.binary m.web) (λ m. m.active ≡ a0) r e m h))
                  λ r3. last r1 r2 r3
      where
        Both : Result (Unit {0}) → Result (Unit {0}) → Option String → Option Tree → Type 0
        Both r1 r2 x y = OkThen b0 w0 a0 r1 (x ≡ b0) × OkThen b0 w0 a0 r2 (y ≡ w0)

        last :
            (r1 r2 r3 : Result (Unit {0}))
            → Runs
                (λ e m. Both r1 r2 m.binary m.web × OkThen b0 w0 a0 r3 (m.active ≡ a0))
                (lift (both_ok r1 r2 r3))
                (λ u e m. Restored b0 w0 a0 m)
                Anything
        last (ok u) (ok v) (ok x) = record { from = λ y p. (p.0.0, p.0.1, p.1) }
        last (ok u) (ok v) (err x) = record { from = λ y p. tt }
        last (ok u) (err v) r3 = record { from = λ y p. tt }
        last (err u) r2 r3 = record { from = λ y p. tt }

    pub stage-Runs :
        {P fail : Pred Machine} (s : String)
        → ((e : Env) (m : Machine) → P e m → fail e m)
        → ((e : Env) (m : Machine) (l : List String) → P e m → P e (record m { stages = l }))
        → Runs P (stage s) (λ u. P) fail
    unfolding stage
    stage-Runs s broken same = Runs-step _ _ (λ e m n p. broken e m p) (λ e m p. same e m _ p)

    pub conclude-Runs :
        (compare : String → String → Result Ordering) (version_of : String → Result String)
        (r : Result (Unit {0}))
        → Runs
            (Kept c bb wb was)
            (conclude left compare version_of c bb wb was r)
            (λ o e m. Promise o m)
            Anything
    unfolding conclude recovered
    conclude-Runs compare version_of (ok u) =
        Runs-bind _ _ (stage-Runs "completed" (λ e m p. tt) (λ e m l p. p)) λ v.
          Runs-weaken {post = λ o e m. Promise o m} _ (Runs-pure succeeded) (λ e m p. tt)
            (λ a e m p. p)
    conclude-Runs compare version_of (err x) =
        Runs-bind {mid = λ r. Kept c bb wb was} _ _
          (Runs-weaken _
            (Runs-attempt {broken = Kept c bb wb was} {post = λ u. Kept c bb wb was} _
              (stage-Runs "rollback" (λ e m p. p) (λ e m l p. p)))
            (λ e m p. p) either)
          λ u. Runs-bind _ _ (Runs-attempt _ recover-Runs) λ r. end r
      where
        either :
            (r : Result (Unit {0})) (e : Env) (m : Machine)
            → Holds {A = Unit {0}} (λ u. Kept c bb wb was) (Kept c bb wb was) r e m
            → Kept c bb wb was e m
        either (ok u) e m p = p
        either (err y) e m p = p

        end :
            (r : Result (Unit {0}))
            → Runs
                (Holds {A = Unit {0}} (λ u e m. Restored b0 w0 a0 m) Anything r)
                (recovered left compare version_of r)
                (λ o e m. Promise o m)
                Anything
        end (ok u) = Runs-pure rolled_back
        end (err y) =
            Runs-weaken {post = λ o e m. Promise o m} _ (Runs-pure unrecovered) (λ e m p. p)
              (λ a e m p. p)
