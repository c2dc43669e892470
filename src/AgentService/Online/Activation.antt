-- ===== src/AgentService/Online/Activation.antt =====
-- Whose status and expiry date a report of online users leaves alone.
use multi_proxy_panel.Prelude.{
  ℤ, String, true, false, false≢true, ◌≡◌, sym, ◌∙◌, List, [], ◌∷◌, Option, none, some, ◌==◌,
  ==_iff, find_last-Just, Just, All, any, Bool-cases, arith, inl, inr,
}
use multi_proxy_panel.Db.{Result, ok, err, Env, Conn, pure, utc_now}
use multi_proxy_panel.Db.Runs.{
  Holds, Runs, Keeps, Runs-pure, Runs-statement, Runs-attempt, Runs-bind, Runs-new_v4, Runs-utc_now,
  Runs-weaken, Runs-if,
}
use multi_proxy_panel.Hub.{Hub, Uuid, Time, Chrono, Client, Status, OnlineSession}
use multi_proxy_panel.Hub.Rows.{update_client-Runs, trigger_event-Keeps}
use multi_proxy_panel.AgentService.{OnlineUser, held, get_client, get_resolved}
use multi_proxy_panel.AgentService.Online.{
  Key, same_key, activated, activate, connected_at, upsert_session, online_user, online_loop,
}

module _ (x : Uuid) (s0 : Status) (e0 : Option Time) where
  -- The rows with the id `x` have this status and this expiry date.
  abbrev pub Stays : Client → Type 0
  Stays r = (r.id == x) ≡ true → (r.status ≡ s0) × (r.expiry_date ≡ e0)

  abbrev AllStay : Env → Hub → Type 0
  AllStay e h = Unit {0} × All Stays h.clients

  activated-Keeps : (id : Uuid) (r : Result (Unit {0})) → Keeps AllStay (activated id r)
  unfolding activated
  activated-Keeps id (ok u) =
      trigger_event-Keeps (λ e cs. Unit {0} × All Stays cs) (λ e h p. p) "client_activated" id
  activated-Keeps id (err e) = Runs-pure tt

  abbrev NotHeld : Client → Type 0
  NotHeld c = (c.id == x) ≡ true → held c.status ≡ false

  either :
      (r : Result (Unit {0})) (e : Env) (h : Hub)
      → Holds {A = Unit {0}} (λ u. AllStay) AllStay r e h
      → AllStay e h
  either (ok u) e h p = p
  either (err y) e h p = p

  module _ (ch : Chrono) where
    activate-Keeps : (o : Option Client) → Just NotHeld o → Keeps AllStay (activate ch o)
    unfolding activate
    activate-Keeps none n = Runs-pure tt
    activate-Keeps (some c) n =
        Runs-if (held c.status) _ _
          (λ t.
            Runs-bind {mid = λ now. AllStay} _ _
              (Runs-weaken _ Runs-utc_now (λ e h p. p) (λ a e h p. p.0))
              λ now.
                Runs-bind {mid = λ r. AllStay} _ _
                  (Runs-weaken _
                    (Runs-attempt {broken = AllStay} {post = λ u. AllStay} _ (
                      update_client-Runs (λ e. Unit {0}) (λ e. Stays) (λ e. Stays) (λ e h p. p) c.id
                        _ (λ e r same p q. absurd (false≢true (sym (n (ground arith)) ∙ t)))
                        (λ e r different p. p)))
                    (λ e h p. p) either)
                  (activated-Keeps c.id))
          (λ t. Runs-pure tt)

    module _ (agent : Uuid) (now : Time) (timestamp : ℤ) where
      upsert_session-Keeps :
          (client : Uuid) (user : OnlineUser) (kept : List Uuid) (o : Option OnlineSession)
          → Keeps AllStay (upsert_session ch agent now timestamp client user kept o)
      unfolding upsert_session connected_at
      upsert_session-Keeps client user kept (some s) =
          Runs-bind {mid = λ r. AllStay} _ _
            (Runs-weaken _
              (Runs-attempt {broken = AllStay} {post = λ u. AllStay} _ (
                Runs-statement _ (λ e h p. p)
                  (λ e h p. elim (Bool-cases (any (λ r. r.id == s.id) h.sessions)) [
                    | inl t ↦ rw t p
                    | inr t ↦ rw t p
                  ])))
              (λ e h p. p) either)
            λ r. Runs-pure _
      upsert_session-Keeps client user kept none = Runs-bind _ _ Runs-new_v4 λ id.
          Runs-bind {mid = λ t. AllStay} _ _ (since (ch.from_timestamp timestamp)) λ t.
            Runs-bind {mid = λ r. AllStay} _ _
              (Runs-weaken _
                (Runs-attempt {broken = AllStay} {post = λ u. AllStay} _
                  (Runs-statement _ (λ e h p. p) (λ e h p. p)))
                (λ e h p. p) either)
              λ r. Runs-pure _
        where
          since :
              (o : Option Time)
              → Runs AllStay (elim o [ none ↦ utc_now | some t ↦ pure t ]) (λ t. AllStay) AllStay
          since none = Runs-weaken _ Runs-utc_now (λ e h p. p) (λ a e h p. p.0)
          since (some t) = Runs-pure t

      module _ (existing : List OnlineSession) (clients : List Client)
          (off : Just (λ (c : Client). held c.status ≡ false) (get_client x clients)) where
        not_held : (client : Uuid) → Just NotHeld (get_client client clients)
        not_held client = elim (Bool-cases (client == x)) [
          | inl t ↦ rw ((==_iff client x).0 t) (free (get_client x clients) off)
          | inr t ↦
              apart (get_client client clients)
                (find_last-Just (λ (c : Client). c.id == client) clients) t
        ]
          where
            free :
                (o : Option Client)
                → Just (λ (c : Client). held c.status ≡ false) o
                → Just NotHeld o
            free none h = tt
            free (some c) h = λ e. h

            apart :
                (o : Option Client)
                → Just (λ (c : Client). (c.id == client) ≡ true) o
                → (client == x) ≡ false
                → Just NotHeld o
            apart none h t = tt
            apart (some c) h t = λ e. absurd (false≢true (sym t ∙ (ground arith)))

        online_user-Keeps :
            (user : OnlineUser) (keys : List Key) (kept : List Uuid) (o : Option (String × Uuid))
            → Keeps AllStay (online_user ch agent now timestamp existing clients user keys kept o)
        unfolding online_user
        online_user-Keeps user keys kept none = Runs-pure _
        online_user-Keeps user keys kept (some (raw, client)) =
            Runs-if (any (λ k. same_key k (client, user.ip_address)) keys) _ _ (λ t. Runs-pure _)
              (λ t.
                Runs-bind _ _ (activate-Keeps (get_client client clients) (not_held client))
                  λ u. Runs-bind _ _ (upsert_session-Keeps client user kept _) λ ids. Runs-pure _)

        online_loop-Keeps :
            (resolved : List (String × Uuid)) (users : List OnlineUser) (keys : List Key)
            (kept : List Uuid)
            → Keeps AllStay
                (online_loop ch agent now timestamp existing clients resolved users keys kept)
        unfolding online_loop
        online_loop-Keeps resolved [] keys kept = Runs-pure kept
        online_loop-Keeps resolved (user ∷ users) keys kept =
            Runs-bind _ _ (online_user-Keeps user keys kept (get_resolved user.client_id resolved))
              λ next. online_loop-Keeps resolved users next.0 next.1

        -- Whatever statements fail, a report of online users changes neither the status nor the expiry
        -- date of a client that, as it was read before the loop, is not on hold or is not among those read.
        pub online_loop-leaves :
            (resolved : List (String × Uuid)) (users : List OnlineUser) (c : Conn Hub)
            → All
                (λ r. (r.id == x) ≡ true → (r.status ≡ s0) × (r.expiry_date ≡ e0))
                c.tables.clients
            → All
                (λ r. (r.id == x) ≡ true → (r.status ≡ s0) × (r.expiry_date ≡ e0))
                (online_loop ch agent now timestamp existing clients resolved users [] []
                  c).1.tables.clients
        online_loop-leaves resolved users c rows =
            both (online_loop ch agent now timestamp existing clients resolved users [] [] c).0 _ _
              ((online_loop-Keeps resolved users [] []).from c (tt, rows))
          where
            both :
                (r : Result (List Uuid)) (e : Env) (h : Hub)
                → Holds {A = List Uuid} (λ u. AllStay) AllStay r e h
                → All Stays h.clients
            both (ok a) e h p = p.1
            both (err y) e h p = p.1
