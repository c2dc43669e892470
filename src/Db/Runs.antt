-- ===== src/Db/Runs.antt =====
-- Specifications of handlers. From a state with `pre`, a handler that returns `a` leaves `post a`,
-- and one that fails leaves `fail`. The predicates are over the environment and the tables.
use multi_proxy_panel.Prelude.{
  ℕ, ◌≡◌, refl, ap, subst, Bool, true, false, inl, inr, Bool-cases, if◌then◌else◌,
}
use multi_proxy_panel.Db.{
  Result, ok, err, Env, Conn, Sql, pure, gets, statement, memory, attempt, modify, utc_now, new_v4,
  continue, done, ◌>>=◌, ◌>>◌,
}

abbrev pub Pred : Type 0 → Type 1
Pred T = Env → T → Type 0

-- What an outcome with these tables has to satisfy.
abbrev pub Holds : {T A : Type 0} → (A → Pred T) → Pred T → Result A → Env → T → Type 0
Holds post fail (ok a) = post a
Holds post fail (err e) = fail

pub record Runs {T A : Type 0} (pre : Pred T) (m : Sql T A) (post : A → Pred T) (fail : Pred T)
    : Type 0 where
  pub from : (c : Conn T) → pre c.env c.tables → Holds post fail (m c).0 (m c).1.env (m c).1.tables

-- The handler keeps `inv`, whether it returns or fails.
abbrev pub Keeps : {T A : Type 0} → Pred T → Sql T A → Type 0
Keeps inv m = Runs inv m (λ a. inv) inv

-- Nothing is said of a handler that fails.
abbrev pub Anything : {T : Type 0} → Pred T
Anything e t = Unit

module _ {T A : Type 0} {fail : Pred T} where
  pub Runs-pure : {post : A → Pred T} (a : A) → Runs (post a) (pure a) post fail
  unfolding pure
  Runs-pure a = record { from = λ c p. p }

  pub Runs-statement :
      {pre : Pred T} {post : A → Pred T} (f : T → Result A × T)
      → ((e : Env) (t : T) → pre e t → fail e t)
      → ((e : Env) (t : T) → pre e t → Holds post fail (f t).0 e (f t).1)
      → Runs pre (statement f) post fail
  unfolding statement
  Runs-statement f broken carried_out = record {
    from = λ c p. elim (Bool-cases (c.env.fails c.asked)) [
      | inl e ↦ rw e (broken c.env c.tables p)
      | inr e ↦ rw e (carried_out c.env c.tables p)
    ];
  }

  pub Runs-memory :
      {pre : Pred T} {post : A → Pred T} (f : T → Result A × T)
      → ((e : Env) (t : T) → pre e t → Holds post fail (f t).0 e (f t).1)
      → Runs pre (memory f) post fail
  unfolding memory
  Runs-memory f runs = record { from = λ c p. runs c.env c.tables p }

  pub Runs-weaken :
      {pre pre' : Pred T} {post post' : A → Pred T} (m : Sql T A)
      → Runs pre m post fail
      → ((e : Env) (t : T) → pre' e t → pre e t)
      → ((a : A) (e : Env) (t : T) → post a e t → post' a e t)
      → Runs pre' m post' fail
  Runs-weaken {post} {post'} m r before after = record {
    from = λ c p. go (m c).0 (m c).1 (r.from c (before c.env c.tables p));
  }
    where
      go :
          (r : Result A) (d : Conn T)
          → Holds post fail r d.env d.tables
          → Holds post' fail r d.env d.tables
      go (ok a) d h = after a d.env d.tables h
      go (err e) d h = h

module _ {T A B : Type 0} {fail : Pred T} where
  -- The second part starts from what the first one leaves.
  pub Runs-bind :
      {pre : Pred T} {mid : A → Pred T} {post : B → Pred T} (m : Sql T A) (f : A → Sql T B)
      → Runs pre m mid fail
      → ((a : A) → Runs (mid a) (f a) post fail)
      → Runs pre (m >>= f) post fail
  unfolding ◌>>=◌
  Runs-bind {mid} {post} m f first second = record {
    from = λ c p. go (m c).0 (m c).1 (first.from c p);
  }
    where
      go :
          (r : Result A) (d : Conn T)
          → Holds mid fail r d.env d.tables
          → Holds post fail (continue r f d).0 (continue r f d).1.env (continue r f d).1.tables
      go (ok a) d h = (second a).from d h
      go (err e) d h = h

module _ {T : Type 0} {fail : Pred T} where
  -- The time read is one that the environment answers.
  pub Runs-utc_now :
      {pre : Pred T} → Runs pre utc_now (λ n e t. pre e t × ((i : ℕ) × (n ≡ e.now i))) fail
  unfolding utc_now
  Runs-utc_now = record { from = λ c p. (p, (c.asked, refl)) }

  pub Runs-new_v4 : {pre : Pred T} → Runs pre new_v4 (λ n. pre) fail
  unfolding new_v4
  Runs-new_v4 = record { from = λ c p. p }

  pub Runs-modify :
      {pre post : Pred T} (f : T → T)
      → ((e : Env) (t : T) → pre e t → post e (f t))
      → Runs pre (modify f) (λ u. post) fail
  unfolding modify
  Runs-modify f h = record { from = λ c p. h c.env c.tables p }

module _ {T A : Type 0} {fail : Pred T} where
  pub Runs-gets : {pre : Pred T} (f : T → A) → Runs pre (gets f) (λ a e t. pre e t × (a ≡ f t)) fail
  unfolding gets
  Runs-gets f = record { from = λ c p. (p, refl) }

  -- Both outcomes of the part go on.
  pub Runs-attempt :
      {pre broken : Pred T} {post : A → Pred T} (m : Sql T A)
      → Runs pre m post broken
      → Runs pre (attempt m) (λ r. Holds post broken r) fail
  unfolding attempt
  Runs-attempt m h = record { from = λ c p. h.from c p }

  pub Runs-if :
      {pre : Pred T} {post : A → Pred T} (b : Bool) (m n : Sql T A)
      → (b ≡ true → Runs pre m post fail)
      → (b ≡ false → Runs pre n post fail)
      → Runs pre (if b then m else n) post fail
  Runs-if true m n yes' no' = yes' refl
  Runs-if false m n yes' no' = no' refl

module _ {T A : Type 0} {pre fail : Pred T} {post : A → Pred T} (m : Sql T A)
    (runs : Runs pre m post fail) (c : Conn T) (p : pre c.env c.tables) where
  pub Runs-returned : {a : A} → (m c).0 ≡ ok a → post a (m c).1.env (m c).1.tables
  Runs-returned e = subst (λ x. Holds post fail x (m c).1.env (m c).1.tables) e (runs.from c p)

-- A handler with this for its failures does not fail.
abbrev pub Never : {T : Type 0} → Pred T
Never e t = ⊥

-- No database statement fails.
abbrev pub NoFail : Env → Type 0
NoFail e = (n : ℕ) → e.fails n ≡ false

module _ {T A : Type 0} {fail : Pred T} where
  pub Runs-carried_out :
      {pre : Pred T} {post : A → Pred T} (f : T → Result A × T)
      → ((e : Env) (t : T) → pre e t → NoFail e)
      → ((e : Env) (t : T) → pre e t → Holds post fail (f t).0 e (f t).1)
      → Runs pre (statement f) post fail
  unfolding statement
  Runs-carried_out f calm runs = record {
    from = λ c p. rw (calm c.env c.tables p c.asked) (runs c.env c.tables p);
  }

  -- A write that is attempted, and passed over if it fails.
  pub Runs-try :
      {pre post : Pred T} (m : Sql T A)
      → Runs pre m (λ a. post) post
      → Runs pre (attempt m >> done) (λ u. post) fail
  Runs-try {post} m h =
      Runs-bind {mid = λ r. Holds {A = A} (λ a. post) post r} _ _ (Runs-attempt m h) either
    where
      either : (r : Result A) → Runs (Holds {A = A} (λ a. post) post r) done (λ u. post) fail
      either (ok a) = Runs-pure tt
      either (err e) = Runs-pure tt

module _ {T A F : Type 0} {pre fail : Pred T} {post : A → Pred T} where
  -- A fact that says nothing of the tables.
  pub Runs-given :
      (m : Sql T A) → (F → Runs pre m post fail) → Runs (λ e t. pre e t × F) m post fail
  Runs-given m h = record { from = λ c p. (h p.1).from c p.0 }

module _ {T A : Type 0} where
  -- A question leaves the tables as they are, and its answer is read from them.
  pub Runs-read :
      (t₀ : T) (f : T → A)
      → Runs
          (λ e t. t ≡ t₀)
          (statement λ t. (ok (f t), t))
          (λ a e t. (t ≡ t₀) × (a ≡ f t₀))
          Anything
  Runs-read t₀ f = Runs-statement _ (λ e t p. tt) (λ e t p. (p, ap f p))
