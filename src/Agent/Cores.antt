-- ===== src/Agent/Cores.antt =====
-- Processes of cores and their managers: crates/pp-core/src/manager/singbox.rs and mihomo.rs,
-- crates/pp-core/src/supervisor.rs, and ensure_core_binary of crates/pp-core/src/installer.rs. The
-- config files and the logs are left out; what a process that reloads does is the core's own.
use multi_proxy_panel.Prelude.{
  suc, String, Bool, true, false, Option, none, some, is_some, if◌then◌else◌, ℕ,
}
use multi_proxy_panel.Db.{
  core as core_error, ok, err, Sql, pure, raise, gets, modify, done, ◌>>=◌, ◌>>◌,
}
use multi_proxy_panel.Json.{Value}
use multi_proxy_panel.Protocol.{CoreType, sing_box, mihomo}
use multi_proxy_panel.Agent.{Agent, Core, with_core, step, ask}

abbrev pub running : Value → Core → Core
running config k = record k { process = some config; started = true }

-- The child is killed and reaped; its start time goes with it.
abbrev pub stopped : Core → Core
stopped k = if is_some k.process then record k { process = none; started = false } else k

abbrev pub exited : Core → Core
exited k = record k { process = none }

-- A binary is needed; then the config is written, the child spawned, and asked after half a second
-- whether it still runs.
unfoldable pub start_from : CoreType → Value → Option String → Option Value → Sql Agent (Unit {0})
start_from core config none process = raise core_error
start_from core config (some binary) (some old) = raise core_error
start_from core config (some binary) none = do
  step (λ a. a)
  step (λ a. a)
  step (with_core core (running config))

unfoldable pub start : CoreType → Value → Sql Agent (Unit {0})
unfolding start_from
start core config = do
  binary ← gets (λ a. (a.cores core).binary)
  process ← gets (λ a. (a.cores core).process)
  start_from core config binary process

-- It does not fail.
unfoldable pub stop : CoreType → Sql Agent (Unit {0})
stop core = modify (with_core core stopped)

unfoldable pub restart : CoreType → Value → Sql Agent (Unit {0})
unfolding stop start
restart core config = do stop core; start core config

unfoldable pub is_running_now : CoreType → Option Value → Bool → Sql Agent Bool
is_running_now core none alive = pure false
is_running_now core (some config) true = pure true
is_running_now core (some config) false = do modify (with_core core exited); pure false

-- A child that has exited, or whose state cannot be read, is forgotten.
unfoldable pub is_running : CoreType → Sql Agent Bool
unfolding is_running_now
is_running core = do
  process ← gets (λ a. (a.cores core).process)
  alive ← (if is_some process then ask else pure false)
  is_running_now core process alive

-- A process that runs takes the new config; without one the command may succeed too.
abbrev pub reloaded : Value → Core → Core
reloaded config k = if is_some k.process then record k { process = some config } else k

unfoldable pub reload : CoreType → Value → Sql Agent (Unit {0})
unfolding restart
reload sing_box config = do step (λ a. a); step (with_core sing_box (reloaded config))
reload mihomo config = restart mihomo config

-- `fetched` is what the download of a version puts in place, `left` what the n-th step leaves there
-- if it fails, as the archive is unpacked in place.
pub record Downloads : Type 0 where
  pub fetched : CoreType → Option String → String
  pub left : ℕ → Option String

abbrev pub with_binary : Option String → Core → Core
with_binary b k = record k { binary = b }

module _ (d : Downloads) where
  -- The download, with its second try.
  unfoldable pub install : CoreType → Option String → Sql Agent (Unit {0})
  install core version c =
      if c.env.fails c.asked
      then (
        err core_error,
        record c {
          tables = with_core core (with_binary (d.left c.asked)) c.tables;
          asked = suc c.asked;
        },
      )
      else (
        ok tt,
        record c {
          tables = with_core core (with_binary (some (d.fetched core version))) c.tables;
          asked = suc c.asked;
        },
      )

  -- A file that is there counts as the binary.
  unfoldable pub ensure_core_binary : CoreType → Option String → Sql Agent (Unit {0})
  unfolding install
  ensure_core_binary core version = do
    binary ← gets (λ a. (a.cores core).binary)
    (if is_some binary then done else install core version)

  abbrev pub registering : Core → Core
  registering k = record k { registered = true }

  unfoldable pub ensure_manager : CoreType → Option String → Bool → Sql Agent (Unit {0})
  unfolding ensure_core_binary
  ensure_manager core version true = done
  ensure_manager core version false = do
    known ← gets (λ a. a.discovered)
    (if known then done else raise core_error)
    ensure_core_binary core version
    modify (with_core core registering)

  -- The manager of a core, made where there is none.
  unfoldable pub manager_for : CoreType → Option String → Sql Agent (Unit {0})
  unfolding ensure_manager
  manager_for core version = do
    registered ← gets (λ a. (a.cores core).registered)
    ensure_manager core version registered
