-- ===== src/Scheduler/Resets.antt =====
-- check_client_traffic_resets: which clients are due afterwards, and the traffic that is kept.
use multi_proxy_panel.Prelude.{
  ℕ, ◌≡◌, refl, sym, ap, ◌∙◌, Bool, true, false, ◌||◌, List, [], ◌∷◌, some, All, All-retain, ◌==◌,
  ==_refl, ==_iff, subst,
}
use multi_proxy_panel.Prelude.Int.{ℤ, ◌+ℤ◌, +ℤ_zero, InI64, add_i64_exact}
use multi_proxy_panel.Db.{Result, ok, err, Conn, Env}
use multi_proxy_panel.Db.Runs.{
  Runs, Holds, Keeps, Runs-returned, Anything, Runs-pure, Runs-statement, Runs-weaken, Runs-bind,
  Runs-utc_now, Runs-if,
}
use multi_proxy_panel.Hub.{
  Hub, Uuid, Time, Chrono, Client, Status, Strategy, no_reset, daily, weekly, monthly, yearly,
  other,
}
use multi_proxy_panel.Hub.Rows.{log_event-Keeps, trigger_event-Keeps, update_client-Runs}
use multi_proxy_panel.Scheduler.Sweep.{Left, SweptOnce, next, settled, sweep-Runs}
use multi_proxy_panel.Scheduler.{
  is_active, is_limited, insert_id, should_reset, reset_columns, reset_client, reset_loop,
  check_client_traffic_resets,
}

abbrev pub counted : Status → Bool
counted s = is_active s || is_limited s

module _ (ch : Chrono) where
  -- A reset just made is not due again.
  not_due_after : (s : Strategy) (now : Time) → should_reset ch s (some now) now ≡ false
  unfolding should_reset
  not_due_after no_reset now = refl
  not_due_after daily now = rw (==_refl (ch.day now)) refl
  not_due_after weekly now = rw (==_refl (ch.week now)) refl
  not_due_after monthly now = rw (==_refl (ch.year now)) (rw (==_refl (ch.month now)) refl)
  not_due_after yearly now = rw (==_refl (ch.year now)) refl
  not_due_after other now = refl

  abbrev NotDue : Time → Client → Type 0
  NotDue now r = should_reset ch r.data_limit_reset_strategy r.last_traffic_reset_time now ≡ false

  module _ (K : Env → Type 0) (now : Time) where
    reset_loop-Runs :
        (cs : List Client) (ids : List Uuid)
        → Runs
            (Left K counted (NotDue now) cs)
            (reset_loop ch now cs ids)
            (λ b. Left K counted (NotDue now) [])
            Anything
    unfolding reset_loop reset_client
    reset_loop-Runs [] ids = Runs-pure ids
    reset_loop-Runs (c ∷ cs) ids =
        Runs-if (should_reset ch c.data_limit_reset_strategy c.last_traffic_reset_time now) _ _
          (λ t.
            Runs-bind _ _
              (settled K counted (NotDue now) c cs (reset_columns now c) "traffic_reset"
                (λ r a. not_due_after r.data_limit_reset_strategy now))
              λ u. reset_loop-Runs cs (insert_id c.id ids))
          (λ t.
            Runs-weaken _ (reset_loop-Runs cs ids)
              (λ e h p. (p.0, next K counted (NotDue now) c cs t h.clients p.1)) (λ a e h p. p))

  check_client_traffic_resets-Runs :
      (e0 : Env)
      → Runs
          (λ e h. e ≡ e0)
          (check_client_traffic_resets ch)
          (λ ids e h. SweptOnce counted NotDue e0 h.clients)
          Anything
  unfolding check_client_traffic_resets
  check_client_traffic_resets-Runs e0 =
      sweep-Runs counted NotDue (λ now cs. reset_loop ch now cs []) e0
        (λ K now cs. reset_loop-Runs K now cs [])

  -- When check_client_traffic_resets succeeds, there is a reading of the clock at which no client that
  -- is active or limited is due for a reset. Nothing is asked of the rows.
  pub check_client_traffic_resets-NotDue :
      (c : Conn Hub) (ids : List Uuid)
      → (check_client_traffic_resets ch c).0 ≡ ok ids
      → (i : ℕ) × All
          (λ r.
            (is_active r.status || is_limited r.status) ≡ true
            → should_reset ch r.data_limit_reset_strategy r.last_traffic_reset_time (c.env.now i)
              ≡ false)
          (check_client_traffic_resets ch c).1.tables.clients
  check_client_traffic_resets-NotDue c ids r =
      Runs-returned (check_client_traffic_resets ch) (check_client_traffic_resets-Runs c.env) c refl
        r

-- The bytes that a client has used since it was made.
abbrev pub lifetime : Client → ℤ
lifetime r = r.all_time_used_bytes +ℤ r.traffic_used_bytes

module _ (total : Uuid → ℤ) where
  abbrev AllKept : Env → Hub → Type 0
  AllKept e h = Unit {0} × All (λ (r : Client). lifetime r ≡ total r.id) h.clients

  module _ (fits : (id : Uuid) → InI64 (total id)) where
    reset_keeps :
        (now : Time) (c r : Client)
        → (r.id == c.id) ≡ true
        → lifetime c ≡ total c.id
        → lifetime (reset_columns now c r) ≡ total r.id
    unfolding reset_columns
    reset_keeps now c r same k =
        let eq : r.id ≡ c.id = (==_iff r.id c.id).0 same in
        +ℤ_zero _
        ∙ (add_i64_exact c.all_time_used_bytes c.traffic_used_bytes
              (subst InI64 (sym k) (fits c.id))
            ∙ (k ∙ ap total (sym eq)))

    reset_client-Keeps :
        (now : Time) (c : Client) → lifetime c ≡ total c.id → Keeps AllKept (reset_client now c)
    unfolding reset_client
    reset_client-Keeps now c k =
        Runs-bind _ _
          (update_client-Runs (λ e. Unit {0}) (λ e r. lifetime r ≡ total r.id)
            (λ e r. lifetime r ≡ total r.id) (λ e h p. p) c.id (reset_columns now c)
            (λ e r same p. reset_keeps now c r same k) (λ e r different p. p))
          λ u.
            Runs-bind _ _
              (log_event-Keeps (λ e cs. Unit {0} × All (λ r. lifetime r ≡ total r.id) cs)
                (λ e h p. p) "traffic_reset" c.id)
              λ v.
                trigger_event-Keeps (λ e cs. Unit {0} × All (λ r. lifetime r ≡ total r.id) cs)
                  (λ e h p. p) "traffic_reset" c.id

    module _ (ch : Chrono) where
      reset_loop-Keeps :
          (now : Time) (cs : List Client) (ids : List Uuid)
          → All (λ r. lifetime r ≡ total r.id) cs
          → Keeps AllKept (reset_loop ch now cs ids)
      unfolding reset_loop
      reset_loop-Keeps now [] ids k = Runs-pure ids
      reset_loop-Keeps now (c ∷ cs) ids k =
          Runs-if (should_reset ch c.data_limit_reset_strategy c.last_traffic_reset_time now) _ _
            (λ t.
              Runs-bind _ _ (reset_client-Keeps now c k.0)
                λ u. reset_loop-Keeps now cs (insert_id c.id ids) k.1)
            (λ t. reset_loop-Keeps now cs ids k.1)

      resets-Keeps : Keeps AllKept (check_client_traffic_resets ch)
      unfolding check_client_traffic_resets
      resets-Keeps =
          Runs-bind {mid = λ cs e h. AllKept e h × All (λ r. lifetime r ≡ total r.id) cs} _ _
            (Runs-statement _ (λ e h p. p)
              (λ e h p. (p, All-retain (λ r. lifetime r ≡ total r.id) _ h.clients p.1)))
            λ cs.
              Runs-bind _ _ Runs-utc_now
                λ now. record { from = λ c p. (reset_loop-Keeps now cs [] p.0.1).from c p.0.0 }

      -- Whether check_client_traffic_resets succeeds or fails half-way, no client's lifetime traffic
      -- (all_time_used_bytes + traffic_used_bytes) changes, where rows with one id agree on it and it
      -- fits an `i64`.
      pub check_client_traffic_resets-lifetime :
          (c : Conn Hub)
          → All (λ r. lifetime r ≡ total r.id) c.tables.clients
          → All (λ r. lifetime r ≡ total r.id) (check_client_traffic_resets ch c).1.tables.clients
      check_client_traffic_resets-lifetime c k =
          either _ _ (check_client_traffic_resets ch c).0 (resets-Keeps.from c (tt, k))
        where
          either :
              (e : Env) (h : Hub) (r : Result (List Uuid))
              → Holds {A = List Uuid} (λ a. AllKept) AllKept r e h
              → All (λ r. lifetime r ≡ total r.id) h.clients
          either e h (ok a) p = p.1
          either e h (err x) p = p.1
