-- ===== src/Scheduler/OnHold.antt =====
-- check_on_hold_timeouts: which clients are left on hold.
use multi_proxy_panel.Prelude.{ℕ, ◌≡◌, refl, true, false, false≢true, List, [], ◌∷◌, All}
use multi_proxy_panel.Db.{ok, Conn, Env}
use multi_proxy_panel.Db.Runs.{
  Runs, Runs-returned, Anything, Runs-pure, Runs-weaken, Runs-bind, Runs-if,
}
use multi_proxy_panel.Hub.{Hub, Uuid, Time, Client}
use multi_proxy_panel.Scheduler.Sweep.{Left, SweptOnce, next, settled, sweep-Runs}
use multi_proxy_panel.Scheduler.{
  is_on_hold, insert_id, set_status, timed_out, hold_loop, check_on_hold_timeouts,
}

abbrev InTime : Time → Client → Type 0
InTime now r = timed_out r.on_hold_timeout now ≡ false

module _ (K : Env → Type 0) (now : Time) where
  hold_loop-Runs :
      (cs : List Client) (gone : List Uuid)
      → Runs
          (Left K is_on_hold (InTime now) cs)
          (hold_loop now cs gone)
          (λ ids. Left K is_on_hold (InTime now) [])
          Anything
  unfolding hold_loop set_status
  hold_loop-Runs [] gone = Runs-pure gone
  hold_loop-Runs (c ∷ cs) gone =
      Runs-if (timed_out c.on_hold_timeout now) _ _
        (λ t.
          Runs-bind _ _
            (settled K is_on_hold (InTime now) c cs _ "on_hold_expired"
              (λ r a. absurd (false≢true a)))
            λ u. hold_loop-Runs cs (insert_id c.id gone))
        (λ t.
          Runs-weaken _ (hold_loop-Runs cs gone)
            (λ e h p. (p.0, next K is_on_hold (InTime now) c cs t h.clients p.1)) (λ a e h p. p))

check_on_hold_timeouts-Runs :
    (e0 : Env)
    → Runs
        (λ e h. e ≡ e0)
        check_on_hold_timeouts
        (λ ids e h. SweptOnce is_on_hold InTime e0 h.clients)
        Anything
unfolding check_on_hold_timeouts
check_on_hold_timeouts-Runs e0 =
    sweep-Runs is_on_hold InTime (λ now cs. hold_loop now cs []) e0
      (λ K now cs. hold_loop-Runs K now cs [])

-- When check_on_hold_timeouts succeeds, there is a reading of the clock at which no client that is
-- still on hold has passed its timeout. Nothing is asked of the rows.
pub check_on_hold_timeouts-InTime :
    (c : Conn Hub) (ids : List Uuid)
    → (check_on_hold_timeouts c).0 ≡ ok ids
    → (i : ℕ) × All
        (λ r. is_on_hold r.status ≡ true → timed_out r.on_hold_timeout (c.env.now i) ≡ false)
        (check_on_hold_timeouts c).1.tables.clients
check_on_hold_timeouts-InTime c ids r =
    Runs-returned check_on_hold_timeouts (check_on_hold_timeouts-Runs c.env) c refl r
