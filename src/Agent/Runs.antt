-- ===== src/Agent/Runs.antt =====
-- Specifications of steps of the Agent that may fail.
use multi_proxy_panel.Prelude.{Bool-cases, inl, inr}
use multi_proxy_panel.Db.{Env, ◌>>=◌}
use multi_proxy_panel.Db.Runs.{Pred, Runs}
use multi_proxy_panel.Agent.{Agent, step, ignored}

pub Runs-step :
    {pre post fail : Pred Agent} (g : Agent → Agent)
    → ((e : Env) (t : Agent) → pre e t → fail e t)
    → ((e : Env) (t : Agent) → pre e t → post e (g t))
    → Runs pre (step g) (λ u. post) fail
unfolding step
Runs-step g broken carried_out = record {
  from = λ c p. elim (Bool-cases (c.env.fails c.asked)) [
    | inl e ↦ rw e (broken c.env c.tables p)
    | inr e ↦ rw e (carried_out c.env c.tables p)
  ];
}

-- A step whose failure is passed over.
pub Runs-ignored :
    {pre post fail : Pred Agent} (g : Agent → Agent)
    → ((e : Env) (t : Agent) → pre e t → post e t)
    → ((e : Env) (t : Agent) → pre e t → post e (g t))
    → Runs pre (ignored (step g)) (λ u. post) fail
unfolding step ◌>>=◌
Runs-ignored g broken carried_out = record {
  from = λ c p. elim (Bool-cases (c.env.fails c.asked)) [
    | inl e ↦ rw e (broken c.env c.tables p)
    | inr e ↦ rw e (carried_out c.env c.tables p)
  ];
}
