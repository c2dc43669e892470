-- ===== src/Db.antt =====
-- Handlers that read and write the database, the connection table and the clock.
-- A handler over the state `T` is a function of a `Conn T`. Each database statement may fail (the
-- environment says which); what was written before stays written, as there is no transaction around
-- the handlers. The environment also answers the readings of the clock and draws the ids.
-- PanelError: crates/pp-common/src/error.rs, without the messages.
pub mod Runs
pub mod Post
use multi_proxy_panel.Prelude.{ℕ, suc, Bool, List, retain, if◌then◌else◌}

pub data PanelError : Type 0 where
  database grpc config validation auth authorization not_found core : PanelError
  subscription release traffic serialization yaml_serialization io internal : PanelError

pub data Result {ℓ} (A : Type ℓ) : Type ℓ where
  ok : A → Result A
  err : PanelError → Result A

pub record Env : Type 0 where
  -- the n-th request to the environment, a database statement, fails
  pub fails : ℕ → Bool
  -- the n-th request, a reading of the clock, is answered by this time
  pub now : ℕ → ℕ
  -- the n-th request, a drawing of an id, is answered by this id
  pub uuid : ℕ → ℕ

pub record Conn (T : Type 0) : Type 0 where
  pub tables : T
  pub asked : ℕ
  pub env : Env

abbrev pub Sql : Type 0 → Type 0 → Type 0
Sql T A = Conn T → Result A × Conn T

module _ {T A : Type 0} where
  unfoldable pub pure : A → Sql T A
  pure a c = (ok a, c)

  unfoldable pub raise : PanelError → Sql T A
  raise e c = (err e, c)

  -- A result at hand, `?` at its end.
  unfoldable pub lift : Result A → Sql T A
  lift r c = (r, c)

  unfoldable pub gets : (T → A) → Sql T A
  gets f c = (ok (f c.tables), c)

  -- One database statement: it fails, or it is carried out.
  unfoldable pub statement : (T → Result A × T) → Sql T A
  statement f c =
      if c.env.fails c.asked
      then (err database, record c { asked = suc c.asked })
      else let (r, t) = f c.tables in (r, record c { tables = t; asked = suc c.asked })

  -- A use of the shared memory, which asks nothing of the environment.
  unfoldable pub memory : (T → Result A × T) → Sql T A
  memory f c = let (r, t) = f c.tables in (r, record c { tables = t })

  -- `match m.await { Ok(a) => …, Err(e) => … }`
  unfoldable pub attempt : Sql T A → Sql T (Result A)
  attempt m c = let (r, d) = m c in (ok r, d)

module _ {T : Type 0} where
  -- A change of the memory, which does not fail.
  unfoldable pub modify : (T → T) → Sql T (Unit {0})
  modify f c = (ok tt, record c { tables = f c.tables })

  -- `chrono::Utc::now()`
  unfoldable pub utc_now : Sql T ℕ
  utc_now c = (ok (c.env.now c.asked), record c { asked = suc c.asked })

  -- `Uuid::new_v4()`
  unfoldable pub new_v4 : Sql T ℕ
  new_v4 c = (ok (c.env.uuid c.asked), record c { asked = suc c.asked })

module _ {T A B : Type 0} where
  abbrev pub continue : Result A → (A → Sql T B) → Sql T B
  continue (ok a) f c = f a c
  continue (err e) f c = (err e, c)

  infixl 10 ◌>>=◌ ◌>>◌
  -- Opening this opens the actions above too.
  unfoldable pub ◌>>=◌ : Sql T A → (A → Sql T B) → Sql T B
  unfolding pure raise lift gets statement memory attempt modify utc_now new_v4
  ◌>>=◌ m f c = let (r, d) = m c in continue r f d

  abbrev pub ◌>>◌ : Sql T A → Sql T B → Sql T B
  m >> n = m >>= λ _. n

module _ {T : Type 0} where
  abbrev pub done : Sql T (Unit {0})
  done = pure tt

module _ {T A : Type 0} where
  -- A `SELECT` of the rows of a table that pass a test.
  abbrev pub select : (T → List A) → (A → Bool) → Sql T (List A)
  select table p = statement λ t. (ok (retain p (table t)), t)
