-- ===== src/Agent/Push/Applied.antt =====
-- A push that asks for a restart.
use multi_proxy_panel.Prelude.{
  ◌≡◌, refl, sym, String, Bool, true, false, Option, none, some, false≢true,
}
use multi_proxy_panel.Db.{Result, ok, err, Env, Conn, Sql, raise, lift}
use multi_proxy_panel.Db.Runs.{
  Pred, Runs, Holds, Anything, Runs-pure, Runs-weaken, Runs-bind, Runs-try, Runs-returned,
  Runs-given,
}
use multi_proxy_panel.Json.{Value}
use multi_proxy_panel.Protocol.{CoreType}
use multi_proxy_panel.Agent.{Agent, ignored, same_core_refl}
use multi_proxy_panel.Agent.Runs.{Runs-step}
use multi_proxy_panel.Agent.Snapshots.{Codec, save_last_config}
use multi_proxy_panel.Agent.Cores.{Downloads, start, start_from, restart}
use multi_proxy_panel.Agent.Push.{
  ConfigPush, core_type_from_i32, applied_already, apply_push, handle_config_push,
}

-- The core runs with this config.
abbrev pub RunsWith : CoreType → Value → Pred Agent
RunsWith core config e a = (a.cores core).process ≡ some config

-- Nothing is asked of a part whose failure does not matter.
whole :
    {A : Type 0} {fail : Pred Agent} (r : Result A) (e : Env) (t : Agent)
    → ((e : Env) (t : Agent) → fail e t)
    → Holds (λ a. Anything) fail r e t
whole (ok a) e t f = tt
whole (err x) e t f = f e t

anything :
    {A : Type 0} {fail : Pred Agent} (m : Sql Agent A)
    → ((e : Env) (t : Agent) → fail e t)
    → Runs Anything m (λ a. Anything) fail
anything m f = record { from = λ c p. whole (m c).0 (m c).1.env (m c).1.tables f }

starts_with_config :
    (core : CoreType) (config : Value) (b : Option String) (p : Option Value)
    → Runs Anything (start_from core config b p) (λ u. RunsWith core config) Anything
unfolding start_from raise
starts_with_config core config none p = record { from = λ c h. tt }
starts_with_config core config (some b) (some old) = record { from = λ c h. tt }
starts_with_config core config (some b) none = Runs-bind _ _ (anything _ (λ e t. tt)) λ u.
    Runs-bind _ _ (anything _ (λ e t. tt))
      λ v. Runs-step _ (λ e t p. tt) (λ e t p. rw (same_core_refl core) refl)

runs_restart :
    (core : CoreType) (config : Value)
    → Runs Anything (restart core config) (λ u. RunsWith core config) Anything
unfolding restart start
runs_restart core config = Runs-bind _ _ (anything _ (λ e t. tt)) λ u.
    Runs-bind _ _ (anything _ (λ e t. tt))
      λ b. Runs-bind _ _ (anything _ (λ e t. tt)) λ p. starts_with_config core config b p

-- Saving the snapshot does not touch the process.
runs_saving :
    (f : Codec) (core : CoreType) (config : Value) (version : String)
    → Runs
        (RunsWith core config)
        (ignored (save_last_config f core config version))
        (λ u. RunsWith core config)
        Anything
unfolding save_last_config
runs_saving f core config version = Runs-try _ (
    Runs-bind _ _ (Runs-step _ (λ e t p. p) (λ e t p. p)) λ u.
      Runs-bind _ _ (Runs-step _ (λ e t p. p) (λ e t p. p))
        λ v. Runs-step _ (λ e t p. p) (λ e t p. p))

module _ (d : Downloads) (f : Codec) (parse : String → Option Value) where
  not_skipped :
      (core : CoreType) (push : ConfigPush)
      → push.restart_required ≡ true
      → Runs Anything (applied_already d f parse core push) (λ skip e t. skip ≡ false) Anything
  unfolding applied_already
  not_skipped core push r = rw r (Runs-weaken _ (Runs-pure _) (λ e t p. refl) (λ a e t p. p))

  applied :
      (core : CoreType) (push : ConfigPush) (config : Value) (skip : Bool)
      → push.restart_required ≡ true
      → Runs
          (λ e t. skip ≡ false)
          (apply_push d f parse core push config skip)
          (λ u. RunsWith core config)
          Anything
  unfolding apply_push
  applied core push config true r = record { from = λ c p. absurd (false≢true (sym p)) }
  applied core push config false r =
      Runs-bind _ _ (Runs-weaken _ (anything _ (λ e t. tt)) (λ e t p. tt) (λ a e t p. tt)) λ u.
        Runs-bind _ _ (anything _ (λ e t. tt)) λ v.
          Runs-bind _ _ (rw r (runs_restart core config))
            λ w. runs_saving f core config push.config_version

  pub runs_push :
      (push : ConfigPush) (config : Value)
      → push.restart_required ≡ true
      → parse push.config_json ≡ some config
      → Runs Anything
          (handle_config_push d f parse push)
          (λ u. RunsWith (core_type_from_i32 push.target_core) config)
          Anything
  unfolding handle_config_push lift
  runs_push push config r e =
      Runs-bind {mid = λ x e t. Unit × (x ≡ config)} _ _
        (rw e (record { from = λ c p. (tt, refl) }))
        λ x. Runs-given _ λ same. rw same (
          Runs-bind _ _ (not_skipped (core_type_from_i32 push.target_core) push r)
            λ skip. applied (core_type_from_i32 push.target_core) push config skip r)

-- A push that asks for a restart and is answered without an error leaves the core running with the
-- config that was pushed.
pub handle_config_push-RunsWith :
    (d : Downloads) (f : Codec) (parse : String → Option Value) (push : ConfigPush) (config : Value)
    (c : Conn Agent)
    → push.restart_required ≡ true
    → parse push.config_json ≡ some config
    → (handle_config_push d f parse push c).0 ≡ ok tt
    → ((handle_config_push d f parse push c).1.tables.cores
        (core_type_from_i32 push.target_core)).process
      ≡ some config
handle_config_push-RunsWith d f parse push config c r e answered =
    Runs-returned _ (runs_push d f parse push config r e) c tt answered
