-- ===== src/Hub/Rows.antt =====
-- Handlers that touch the client rows, and those that leave them alone: the update of one row, the
-- log and the webhooks (crates/pp-hub/src/service/webhook.rs).
use multi_proxy_panel.Prelude.{
  ◌≡◌, String, str_eq, Bool, true, false, false≢true, sym, subst, List, [], ◌∷◌, ◌||◌, any, All,
  ◌==◌, inl, inr, Bool-cases, if◌then◌else◌,
}
use multi_proxy_panel.Db.{Result, ok, err, Env}
use multi_proxy_panel.Db.Runs.{
  Pred, Runs, Holds, Runs-pure, Runs-statement, Runs-weaken, Runs-bind, Runs-utc_now, Runs-new_v4,
  Runs-modify, NoFail, Runs-carried_out, Runs-attempt, Runs-if,
}
use multi_proxy_panel.Hub.{Hub, Uuid, Client, Webhook, map_where, update_client}
use multi_proxy_panel.Hub.Events.{deliver, deliver_fetched, trigger_event, log_event}

-- A predicate on the client rows alone.
abbrev pub OnClients : (Env → List Client → Type 0) → Pred Hub
OnClients P e h = P e h.clients

All-map_where :
    {A : Type 0} {P Q : A → Type 0} (p : A → Bool) (f : A → A) (xs : List A)
    → ((x : A) → p x ≡ true → P x → Q (f x))
    → ((x : A) → p x ≡ false → P x → Q x)
    → All P xs
    → All Q (map_where p f xs)
All-map_where p f [] there other h = tt
All-map_where {Q} p f (x ∷ xs) there other h = (
  elim (Bool-cases (p x)) [ inl t ↦ rw t (there x t h.0) | inr t ↦ rw t (other x t h.0) ],
  All-map_where {Q = Q} p f xs there other h.1,
)

module _ (P : Env → List Client → Type 0) {fail : Pred Hub}
    (broken : (e : Env) (h : Hub) → P e h.clients → fail e h) where
  pub log_event-Keeps :
      (s : String) (id : Uuid) → Runs (OnClients P) (log_event s id) (λ u. OnClients P) fail
  unfolding log_event
  log_event-Keeps s id = Runs-bind _ _ Runs-new_v4 λ n.
      Runs-bind {mid = λ t. OnClients P} _ _
        (Runs-weaken _ Runs-utc_now (λ e h p. p) (λ a e h p. p.0))
        λ now. Runs-statement _ broken (λ e h p. p)

  deliver-Keeps :
      (s : String) (id : Uuid) (hooks : List Webhook)
      → Runs (OnClients P) (deliver s id hooks) (λ u. OnClients P) fail
  unfolding deliver
  deliver-Keeps s id [] = Runs-pure tt
  deliver-Keeps s id (hook ∷ hooks) =
      Runs-if (any (λ e. str_eq e s || str_eq e "*") hook.events) _ _
        (λ t.
          Runs-bind {mid = λ t. OnClients P} _ _
            (Runs-weaken _ Runs-utc_now (λ e h p. p) (λ a e h p. p.0))
            λ now. Runs-bind _ _ (Runs-modify _ (λ e h p. p)) λ u. deliver-Keeps s id hooks)
        (λ t. deliver-Keeps s id hooks)

  pub trigger_event-Keeps :
      (s : String) (id : Uuid) → Runs (OnClients P) (trigger_event s id) (λ u. OnClients P) fail
  unfolding trigger_event deliver_fetched
  trigger_event-Keeps s id =
      Runs-bind {mid = λ r. OnClients P} _ _
        (Runs-weaken _
          (Runs-attempt {broken = OnClients P} {post = λ a. OnClients P} _
            (Runs-statement _ (λ e h p. p) (λ e h p. p)))
          (λ e h p. p) either)
        fetched
    where
      either :
          (a : Result (List Webhook)) (e : Env) (h : Hub)
          → Holds {A = List Webhook} (λ a. OnClients P) (OnClients P) a e h
          → OnClients P e h
      either (ok a) e h p = p
      either (err x) e h p = p

      fetched :
          (r : Result (List Webhook))
          → Runs (OnClients P) (deliver_fetched s id r) (λ u. OnClients P) fail
      fetched (ok hooks) = deliver-Keeps s id hooks
      fetched (err x) = Runs-pure tt

-- `K` is what else is known of the environment.
module _ (K : Env → Type 0) (P Q : Env → Client → Type 0) {fail : Pred Hub}
    (broken : (e : Env) (h : Hub) → K e × All (P e) h.clients → fail e h) where
  -- The rows with this id are changed, the others stay.
  pub update_client-Runs :
      (id : Uuid) (f : Client → Client)
      → ((e : Env) (c : Client) → (c.id == id) ≡ true → P e c → Q e (f c))
      → ((e : Env) (c : Client) → (c.id == id) ≡ false → P e c → Q e c)
      → Runs
          (λ e h. K e × All (P e) h.clients)
          (update_client id f)
          (λ u e h. K e × All (Q e) h.clients)
          fail
  unfolding update_client
  update_client-Runs id f there other = Runs-statement _ broken λ e h p.
      elim (Bool-cases (any (λ c. c.id == id) h.clients)) [
        | inl t ↦ rw t (
          p.0,
          All-map_where {P = P e} {Q = Q e} (λ c. c.id == id) f h.clients (there e) (other e) p.1,
        )
        | inr t ↦ rw t (broken e h p)
      ]

All-none :
    {A : Type 0} (P Q : A → Type 0) (p : A → Bool) (xs : List A)
    → any p xs ≡ false
    → ((x : A) → p x ≡ false → P x → Q x)
    → All P xs
    → All Q xs
All-none P Q p [] e other h = tt
All-none P Q p (x ∷ xs) e other h = elim (Bool-cases (p x)) [
  | inl t ↦ absurd (false≢true (sym (subst (λ b. (if b then true else any p xs) ≡ false) t e)))
  | inr t ↦ (
    other x t h.0,
    All-none P Q p xs (subst (λ b. (if b then true else any p xs) ≡ false) t e) other h.1,
  )
]

-- Where no statement fails, an update without a row changes none, so the same holds of every row.
pub update_client-carried_out :
    (P Q : Client → Type 0) (id : Uuid) (f : Client → Client)
    → ((c : Client) → (c.id == id) ≡ true → P c → Q (f c))
    → ((c : Client) → (c.id == id) ≡ false → P c → Q c)
    → Runs
        (λ e h. NoFail e × All P h.clients)
        (update_client id f)
        (λ u e h. NoFail e × All Q h.clients)
        (λ e h. NoFail e × All Q h.clients)
unfolding update_client
update_client-carried_out P Q id f there other =
    Runs-carried_out _ (λ e h p. p.0)
      λ e h p. elim (Bool-cases (any (λ c. c.id == id) h.clients)) [
        | inl t ↦
            rw t (p.0, All-map_where {P = P} {Q = Q} (λ c. c.id == id) f h.clients there other p.1)
        | inr t ↦ rw t (p.0, All-none P Q (λ c. c.id == id) h.clients t other p.1)
      ]
