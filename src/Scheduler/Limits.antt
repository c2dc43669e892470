-- ===== src/Scheduler/Limits.antt =====
-- check_client_limits: which active clients are left.
use multi_proxy_panel.Prelude.{
  ℕ, pos, ◌||◌, ◌≡◌, refl, sym, ◌∙◌, String, true, false, false≢true, List, [], ◌∷◌, Option, none,
  some, ltb, ◌≤◌, All, arith,
}
use multi_proxy_panel.Prelude.Int.{leb_ℤ, ltb_ℤ}
use multi_proxy_panel.Db.{ok, Conn, Env}
use multi_proxy_panel.Db.Runs.{
  Pred, Runs, Runs-returned, Anything, Runs-pure, Runs-statement, Runs-weaken, Runs-bind,
  Runs-utc_now, Runs-if,
}
use multi_proxy_panel.Hub.{Hub, Uuid, Time, Client, Status, limited, expired}
use multi_proxy_panel.Scheduler.Sweep.{Left, Swept, next, settled, selected, swept}
use multi_proxy_panel.Scheduler.{
  is_active, insert_id, is_past, over_limit, set_status, limits_loop, check_client_limits,
  timed_out,
}

-- The client has no traffic limit or has used less than it, and was not past its expiry date at `t0`.
unfoldable pub Admissible : Time → Client → Type 0
Admissible t0 c =
    ((leb_ℤ c.traffic_limit_bytes (pos 0) || ltb_ℤ c.traffic_used_bytes c.traffic_limit_bytes)
      ≡ true)
    × (timed_out c.expiry_date t0 ≡ false)

within :
    (c : Client)
    → over_limit c ≡ false
    → (leb_ℤ c.traffic_limit_bytes (pos 0) || ltb_ℤ c.traffic_used_bytes c.traffic_limit_bytes)
      ≡ true
unfolding over_limit
within c h = ground arith

-- The environment's clock does not show a time before `t0`.
abbrev pub After : Time → Env → Type 0
After t0 e = (i : ℕ) → t0 ≤ e.now i

abbrev Left_active : Time → List Client → Pred Hub
Left_active t0 = Left (After t0) is_active (Admissible t0)

-- A client whose status is set to an inactive one is done with.
expelled :
    (t0 : Time) (c : Client) (cs : List Client) (s : Status) (event : String)
    → is_active s ≡ false
    → Runs (Left_active t0 (c ∷ cs)) (set_status s event c.id) (λ u. Left_active t0 cs) Anything
unfolding set_status
expelled t0 c cs s event off =
    settled (After t0) is_active (Admissible t0) c cs _ event
      (λ r a. absurd (false≢true (sym off ∙ a)))

-- The test of the expiry date is at a time not before `t0`.
is_past-Runs :
    (t0 : Time) (cs : List Client) (o : Option Time)
    → Runs
        (Left_active t0 cs)
        (is_past o)
        (λ p e h. Left_active t0 cs e h × (p ≡ false → timed_out o t0 ≡ false))
        Anything
unfolding is_past
is_past-Runs t0 cs none =
    Runs-weaken {post = λ p e h. Left_active t0 cs e h × (p ≡ false → false ≡ false)} _
      (Runs-pure false) (λ e h p. (p, λ q. refl)) (λ a e h p. p)
is_past-Runs t0 cs (some t) = Runs-bind _ _ Runs-utc_now λ now.
    Runs-weaken _
      (Runs-pure {post = λ p e h. Left_active t0 cs e h × (p ≡ false → ltb t t0 ≡ false)}
        (ltb t now))
      (λ e h p. (p.0, λ q. (let le = p.0.0 p.1.0 in let eq = p.1.1 in ground arith))) (λ a e h p. p)

limits_loop-Runs :
    (t0 : Time) (cs : List Client) (affected : List Uuid)
    → Runs (Left_active t0 cs) (limits_loop cs affected) (λ ids. Left_active t0 []) Anything
unfolding limits_loop
limits_loop-Runs t0 [] affected = Runs-pure affected
limits_loop-Runs t0 (c ∷ cs) affected =
    Runs-bind _ _ (is_past-Runs t0 (c ∷ cs) c.expiry_date) λ past.
      Runs-if past _ _
        (λ t.
          Runs-bind _ _
            (Runs-weaken _ (expelled t0 c cs expired "client_expired" refl) (λ e h p. p.0)
              (λ a e h p. p))
            λ u. limits_loop-Runs t0 cs (insert_id c.id affected))
        (λ t.
          Runs-if (over_limit c) _ _
            (λ o.
              Runs-bind _ _
                (Runs-weaken _ (expelled t0 c cs limited "client_limited" refl) (λ e h p. p.0)
                  (λ a e h p. p))
                λ u. limits_loop-Runs t0 cs (insert_id c.id affected))
            (λ o.
              Runs-weaken
                {pre' = λ e h.
                  Left_active t0 (c ∷ cs) e h × (past ≡ false → timed_out c.expiry_date t0 ≡ false)}
                _ (limits_loop-Runs t0 cs affected)
                (λ e h p. (
                  p.0.0,
                  next (After t0) is_active (Admissible t0) c cs
                      (unfold Admissible in (within c o, p.1 t)) h.clients p.0.1,
                ))
                (λ a e h p. p)))

check_client_limits-Runs :
    (t0 : Time)
    → Runs
        (λ e h. After t0 e)
        check_client_limits
        (λ ids e h. All (Swept (After t0) is_active (Admissible t0)) h.clients)
        Anything
unfolding check_client_limits
check_client_limits-Runs t0 =
    Runs-bind {mid = λ cs. Left_active t0 cs} _ _
      (Runs-statement _ (λ e h p. tt)
        (λ e h p. (p, selected (After t0) is_active (Admissible t0) h.clients)))
      λ cs.
        Runs-weaken _ (limits_loop-Runs t0 cs []) (λ e h p. p)
          (λ a e h p. swept (After t0) is_active (Admissible t0) h.clients p.1)

-- When check_client_limits succeeds, every client that is still active has no positive traffic limit
-- or has used less than it, and has no expiry date before `t0`, for any `t0` that the clock never reads less than. Nothing is
-- asked of the rows: ids may repeat.
pub check_client_limits-Enforced :
    (t0 : Time) (c : Conn Hub) (ids : List Uuid)
    → ((i : ℕ) → t0 ≤ c.env.now i)
    → (check_client_limits c).0 ≡ ok ids
    → All
        (λ r. is_active r.status ≡ true → Admissible t0 r)
        (check_client_limits c).1.tables.clients
check_client_limits-Enforced t0 c ids after r =
    Runs-returned check_client_limits (check_client_limits-Runs t0) c after r
