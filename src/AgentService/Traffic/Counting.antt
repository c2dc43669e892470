-- ===== src/AgentService/Traffic/Counting.antt =====
-- What a report leaves in a client's traffic counter.
use multi_proxy_panel.Prelude.{
  ℕ, ℤ, String, Bool, true, false, arith, false≢true, ◌≡◌, refl, sym, ap, ◌∙◌, subst, List, [], ◌∷◌,
  Option, none, some, ◌==◌, ==_iff, ==_refl, find_last, find_last-Just, Just, All, any, Bool-cases,
  inl, inr, if◌then◌else◌,
}
use multi_proxy_panel.Prelude.Int.{add_i64}
use multi_proxy_panel.Db.{Result, ok, err, Env, Conn}
use multi_proxy_panel.Db.Runs.{
  Pred, Holds, Runs, Never, NoFail, Runs-pure, Runs-carried_out, Runs-try, Runs-statement,
  Runs-bind, Runs-new_v4, Runs-if,
}
use multi_proxy_panel.Hub.{Hub, Uuid, Time, Client, NodeUserUsage}
use multi_proxy_panel.Hub.Rows.{update_client-carried_out, update_client-Runs}
use multi_proxy_panel.AgentService.{UserTraffic, held, get_client, get_resolved}
use multi_proxy_panel.AgentService.Traffic.{upsert_usage, count_client, count_user, count_users}

-- No statement fails, and the rows with the id `x` hold this counter.
abbrev pub Counter : Uuid → ℤ → Pred Hub
Counter x v e h = NoFail e × All (λ r. (r.id == x) ≡ true → r.traffic_used_bytes ≡ v) h.clients

module _ (x : Uuid) (v : ℤ) where
  upsert_usage-Counter :
      (agent client : Uuid) (hour : Time) (up down : ℤ) (o : Option NodeUserUsage)
      → Runs (Counter x v) (upsert_usage agent client hour up down o) (λ u. Counter x v) Never
  unfolding upsert_usage
  upsert_usage-Counter agent client hour up down (some r) = Runs-try _ (
      Runs-statement _ (λ e h p. p)
        (λ e h p. elim (Bool-cases (any (λ y. y.id == r.id) h.usage_records)) [
          | inl t ↦ rw t p
          | inr t ↦ rw t p
        ]))
  upsert_usage-Counter agent client hour up down none =
      Runs-bind _ _ Runs-new_v4 λ id. Runs-try _ (Runs-statement _ (λ e h p. p) (λ e h p. p))

module _ (x : Uuid) where
  -- A write of the counter of a client with another id.
  count_client-other :
      (v : ℤ) (up down : ℤ) (o : Option Client)
      → Just (λ c. (c.id == x) ≡ false) o
      → Runs (Counter x v) (count_client up down o) (λ u. Counter x v) Never
  unfolding count_client
  count_client-other v up down none n = Runs-pure tt
  count_client-other v up down (some c) n =
      Runs-if (held c.status) _ _ (λ t. Runs-pure tt)
        (λ t. Runs-try _ (
          update_client-Runs NoFail (λ e r. (r.id == x) ≡ true → r.traffic_used_bytes ≡ v)
            (λ e r. (r.id == x) ≡ true → r.traffic_used_bytes ≡ v) (λ e h p. p) c.id _
            (λ e r same p q.
              absurd
                (false≢true (sym n ∙ (ap (λ i. i == x) (sym ((==_iff r.id c.id).0 same)) ∙ q))))
            (λ e r different p. p)))

  -- A write of the counter of this client.
  count_client-this :
      (v : ℤ) (up down : ℤ) (c : Client)
      → (c.id == x) ≡ true
      → held c.status ≡ false
      → Runs
          (Counter x v)
          (count_client up down (some c))
          (λ u. Counter x (add_i64 (add_i64 c.traffic_used_bytes up) down))
          Never
  unfolding count_client
  count_client-this v up down c same free =
      Runs-if (held c.status) _ _ (λ t. absurd (false≢true (sym free ∙ t)))
        (λ t. Runs-try _ (
          update_client-carried_out (λ r. (r.id == x) ≡ true → r.traffic_used_bytes ≡ v)
            (λ r.
              (r.id == x) ≡ true
              → r.traffic_used_bytes ≡ add_i64 (add_i64 c.traffic_used_bytes up) down)
            c.id _ (λ r s p q. refl)
            (λ r different p q. absurd (false≢true (sym different ∙ (ground arith))))))

-- The entry of the report stands for the client `x`.
abbrev pub stands_for : List (String × Uuid) → Uuid → UserTraffic → Bool
stands_for resolved x user = elim (get_resolved user.client_id resolved) [
  | none ↦ false
  | some e ↦ e.1 == x
]

module _ (counted : ℤ → ℕ → ℤ) (agent : Uuid) (hour : Time) (rate : ℕ) (clients : List Client)
    (resolved : List (String × Uuid)) (c : Client) where
  -- The counter after an entry for the client.
  unfoldable pub added : UserTraffic → ℤ
  added user =
      add_i64 (add_i64 c.traffic_used_bytes (counted user.upload_bytes rate))
        (counted user.download_bytes rate)

  abbrev counter_of : Option UserTraffic → ℤ → ℤ
  counter_of none v = v
  counter_of (some user) v = added user

  -- The counter after a report: that of its last entry for the client.
  abbrev pub after : List UserTraffic → ℤ → ℤ
  after users v = counter_of (find_last (stands_for resolved c.id) users) v

  counter_of-step :
      (o : Option UserTraffic) (b : Bool) (user : UserTraffic) (v : ℤ)
      → counter_of o (if b then added user else v)
        ≡ counter_of (elim o [ some y ↦ some y | none ↦ if b then some user else none ]) v
  counter_of-step none true user v = refl
  counter_of-step none false user v = refl
  counter_of-step (some u) b user v = refl

  entry_id : Option (String × Uuid) → Bool
  entry_id o = elim o [ none ↦ false | some e ↦ e.1 == c.id ]

  module _ (known : get_client c.id clients ≡ some c) (free : held c.status ≡ false) where
    abbrev Next : UserTraffic → ℤ → Bool → Pred Hub
    Next user v b = Counter c.id (if b then added user else v)

    counted_entry :
        (user : UserTraffic) (v : ℤ) (raw : String) (client : Uuid) (b : Bool)
        → (client == c.id) ≡ b
        → Runs
            (Counter c.id v)
            (count_client
              (counted user.upload_bytes rate)
              (counted user.download_bytes rate)
              (get_client client clients))
            (λ u. Next user v b)
            Never
    unfolding added
    counted_entry user v raw client true e =
        let same : client ≡ c.id = (==_iff client c.id).0 e in
        rw same (rw known (count_client-this c.id v _ _ c (==_refl c.id) free))
    counted_entry user v raw client false e =
        count_client-other c.id v _ _ (get_client client clients) (
          different (get_client client clients)
            (find_last-Just (λ (r : Client). r.id == client) clients))
      where
        different :
            (o : Option Client)
            → Just (λ (r : Client). (r.id == client) ≡ true) o
            → Just (λ (r : Client). (r.id == c.id) ≡ false) o
        different none h = tt
        different (some r) h = ground arith

    count_user-Counter :
        (user : UserTraffic) (v : ℤ) (o : Option (String × Uuid))
        → Runs
            (Counter c.id v)
            (count_user counted agent hour rate clients user o)
            (λ u. Next user v (entry_id o))
            Never
    unfolding count_user entry_id
    count_user-Counter user v none = Runs-pure tt
    count_user-Counter user v (some (raw, client)) =
        Runs-bind {mid = λ a. Counter c.id v} _ _ (Runs-carried_out _ (λ e h p. p.0) (λ e h p. p))
          λ existing.
            Runs-bind _ _ (upsert_usage-Counter c.id v agent client hour _ _ _)
              λ u. counted_entry user v raw client (client == c.id) refl

    count_users-Counter :
        (users : List UserTraffic) (v : ℤ)
        → Runs
            (Counter c.id v)
            (count_users counted agent hour rate clients resolved users)
            (λ u. Counter c.id (after users v))
            Never
    unfolding count_users entry_id
    count_users-Counter [] v = Runs-pure tt
    count_users-Counter (user ∷ users) v =
        subst
          (λ n.
            Runs (Counter c.id v)
              (count_users counted agent hour rate clients resolved (user ∷ users))
              (λ u. Counter c.id n) Never)
          (counter_of-step (find_last (stands_for resolved c.id) users)
            (stands_for resolved c.id user) user v)
          (Runs-bind _ _ (count_user-Counter user v (get_resolved user.client_id resolved))
            λ u. count_users-Counter users _)

    -- Where no statement fails, the users of a report are counted to the end. For a client `c`, as it
    -- was read before the loop and not on hold, the rows with its id then hold the counter that was
    -- read plus the bytes of the report's LAST entry for it, times the node's rate; with no entry for
    -- it they keep their counter `v`. So one entry is added in full, and of several entries for one
    -- client all but the last are lost.
    pub count_users-last :
        (users : List UserTraffic) (v : ℤ) (x : Conn Hub)
        → ((n : ℕ) → x.env.fails n ≡ false)
        → All (λ r. (r.id == c.id) ≡ true → r.traffic_used_bytes ≡ v) x.tables.clients
        → ((count_users counted agent hour rate clients resolved users x).0 ≡ ok tt)
          × All
              (λ r. (r.id == c.id) ≡ true → r.traffic_used_bytes ≡ after users v)
              (count_users counted agent hour rate clients resolved users x).1.tables.clients
    count_users-last users v x calm rows =
        either (count_users counted agent hour rate clients resolved users x).0 _ _
          ((count_users-Counter users v).from x (calm, rows))
      where
        either :
            (r : Result (Unit {0})) (e : Env) (h : Hub)
            → Holds {A = Unit {0}} (λ u. Counter c.id (after users v)) Never r e h
            → (r ≡ ok tt)
              × All (λ y. (y.id == c.id) ≡ true → y.traffic_used_bytes ≡ after users v) h.clients
        either (ok u) e h p = (refl, p.1)
        either (err y) e h p = absurd p
