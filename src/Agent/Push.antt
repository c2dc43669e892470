-- ===== src/Agent/Push.antt =====
-- What the Agent does with a message of the Hub: handle_config_push, ensure_core_build and
-- handle_core_command of crates/pp-agent/src/client.rs. The reading of JSON is an argument.
pub mod Skipped
pub mod Applied
pub mod Build
use Prim.Native.String.{◌++◌ as ◌<>◌}
use multi_proxy_panel.Prelude.{
  suc, ℕ, String, str_eq, Bool, true, false, not, ◌&&◌, ◌||◌, List, [], ◌∷◌, Option, none, some,
  find, is_some, if◌then◌else◌, unwrap_or, ◌==◌,
}
use multi_proxy_panel.Prelude.Text.{trim, is_empty}
use multi_proxy_panel.Db.{
  PanelError, serialization, core as core_error, Result, ok, err, Sql, pure, raise, lift, gets,
  modify, attempt, done, ◌>>=◌, ◌>>◌,
}
use multi_proxy_panel.Json.{Value, text, boolean, json_object, json_array}
use multi_proxy_panel.Protocol.{CoreType, sing_box, mihomo, same_core}
use multi_proxy_panel.Agent.{Agent, Core, with_core, step, ignored}
use multi_proxy_panel.Agent.Snapshots.{PersistedConfig, Codec, load_last_configs, save_last_config}
use multi_proxy_panel.Agent.Cores.{
  Downloads, start, stop, restart, is_running, reload, ensure_core_binary, manager_for, with_binary,
}

pub record ConfigPush : Type 0 where
  pub config_json : String
  pub target_core : ℕ
  pub restart_required : Bool
  pub config_version : String
  pub core_version : String
  pub core_build_id : String

unfoldable pub core_type_from_i32 : ℕ → CoreType
core_type_from_i32 value = if value == 2 then sing_box else if value == 4 then mihomo else sing_box

abbrev pub version_in : CoreType → List (CoreType × PersistedConfig) → Option String
version_in core snapshots = elim (find (λ s. same_core s.0 core) snapshots) [
  | none ↦ none
  | some s ↦ some s.1.version
]

abbrev pub is_version : Option String → String → Bool
is_version none version = false
is_version (some v) version = str_eq v version

-- An empty version stands for the default one.
abbrev pub given_version : String → Option String
given_version v = if is_empty v then none else some v

abbrev put_aside : Core → Core
put_aside k = record k { binary = none; backup = k.binary }

abbrev put_back : Core → Core
put_back k = record k { binary = k.backup; backup = none }

abbrev drop_backup : Core → Core
drop_backup k = record k { backup = none }

abbrev marked : String → Core → Core
marked expected k = record k { build_id = some expected }

module _ (d : Downloads) where
  unfoldable pub finish_build : CoreType → String → Bool → Result (Unit {0}) → Sql Agent (Unit {0})
  finish_build core expected has_binary (ok u) = do
    ignored (step (with_core core drop_backup))
    step (with_core core (marked expected))
  finish_build core expected has_binary (err e) = do
    (if has_binary then ignored (step (with_core core put_back)) else done)
    raise core_error

  -- The binary is moved aside, fetched again, and on a failure put back.
  unfoldable pub replace_build : CoreType → String → String → Sql Agent (Unit {0})
  unfolding finish_build ensure_core_binary
  replace_build core version expected = do
    binary ← gets (λ a. (a.cores core).binary)
    (if is_some binary then step (with_core core put_aside) else done)
    installed ← attempt (ensure_core_binary d core (given_version version))
    finish_build core expected (is_some binary) installed

  abbrev build_after : CoreType → String → String → Bool → String → Sql Agent (Unit {0})
  build_after core version expected false current = done
  build_after core version expected true current =
      if str_eq current expected then done else replace_build core version expected

  unfoldable pub ensure_core_build : CoreType → String → String → Sql Agent (Unit {0})
  unfolding replace_build trim
  ensure_core_build core version build_id = do
    known ← gets (λ a. a.discovered)
    marker ← gets (λ a. (a.cores core).build_id)
    build_after core version (version <> ("|" <> build_id)) known (trim (unwrap_or marker ""))

  module _ (f : Codec) (parse : String → Option Value) where
    abbrev pub parsed : Option Value → Result Value
    parsed none = err serialization
    parsed (some config) = ok config

    -- Whether this version is applied already.
    unfoldable pub applied_already : CoreType → ConfigPush → Sql Agent Bool
    unfolding load_last_configs is_empty
    applied_already core push =
        if not push.restart_required && not (is_empty push.config_version)
        then (do
          snapshots ← load_last_configs f
          pure (is_version (version_in core snapshots) push.config_version))
        else pure false

    unfoldable pub apply_push : CoreType → ConfigPush → Value → Bool → Sql Agent (Unit {0})
    unfolding manager_for ensure_core_build restart reload save_last_config
    apply_push core push config true = done
    apply_push core push config false = do
      manager_for d core (given_version push.core_version)
      (if not (is_empty push.core_build_id) || not (is_empty push.core_version)
          then ignored (ensure_core_build core push.core_version push.core_build_id)
          else done)
      (if push.restart_required then restart core config else reload core config)
      ignored (save_last_config f core config push.config_version)

    unfoldable pub handle_config_push : ConfigPush → Sql Agent (Unit {0})
    unfolding applied_already apply_push core_type_from_i32
    handle_config_push push = do
      config ← lift (parsed (parse push.config_json))
      skip ← applied_already (core_type_from_i32 push.target_core) push
      apply_push (core_type_from_i32 push.target_core) push config skip

  pub data Command : Type 0 where
    start_core stop_core restart_core : ℕ → Command

  unfoldable pub minimal_config_for_core : CoreType → Value
  minimal_config_for_core sing_box = json_object (
      ("log", json_object (("level", text "warn") ∷ []))
      ∷ ("inbounds", json_array [])
      ∷ (
        "outbounds",
        json_array (json_object (("type", text "direct") ∷ ("tag", text "direct") ∷ []) ∷ []),
      )
      ∷ [])
  minimal_config_for_core mihomo = json_object (
      ("log-level", text "warning")
      ∷ ("mode", text "rule")
      ∷ ("allow-lan", boolean false)
      ∷ ("listeners", json_array [])
      ∷ ("rules", json_array (text "MATCH,DIRECT" ∷ []))
      ∷ [])

  unfoldable pub run_command : CoreType → Command → Sql Agent (Unit {0})
  unfolding manager_for is_running start stop restart minimal_config_for_core
  run_command core (start_core n) = do
    manager_for d core none
    alive ← is_running core
    (if alive then done else start core (minimal_config_for_core core))
  run_command core (stop_core n) = do
    registered ← gets (λ a. (a.cores core).registered)
    (if registered then stop core else done)
  run_command core (restart_core n) = do
    manager_for d core none
    restart core (minimal_config_for_core core)

  abbrev target : Command → CoreType
  target (start_core n) = core_type_from_i32 n
  target (stop_core n) = core_type_from_i32 n
  target (restart_core n) = core_type_from_i32 n

  unfoldable pub handle_core_command : Option Command → Sql Agent (Unit {0})
  unfolding run_command core_type_from_i32
  handle_core_command none = done
  handle_core_command (some cmd) = run_command (target cmd) cmd
