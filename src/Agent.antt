-- ===== src/Agent.antt =====
-- What an Agent keeps on its node: per core the binary and its markers, the manager with its process
-- (crates/pp-core/src/manager, crates/pp-core/src/supervisor.rs), and the snapshots of the last
-- configs (crates/pp-agent/src/persist.rs). A step on the disk or on a process may fail.
pub mod Runs
pub mod Snapshots
pub mod Cores
pub mod Push
pub mod Restore
pub mod Reconnect
pub mod Lifecycle
mod Tests
use multi_proxy_panel.Prelude.{
  ◌≡◌, refl, suc, String, Bool, true, false, Option, none, some, if◌then◌else◌,
}
use multi_proxy_panel.Db.{PanelError, io, Result, ok, err, Sql, attempt, done, ◌>>=◌, ◌>>◌}
use multi_proxy_panel.Json.{Value}
use multi_proxy_panel.Protocol.{CoreType, sing_box, mihomo, same_core}

-- `process` is the config that the child runs with, `started` whether there is a start time.
pub record Core : Type 0 where
  pub binary : Option String
  pub backup : Option String
  pub build_id : Option String
  pub registered : Bool
  pub process : Option Value
  pub started : Bool

-- The files by their contents; `legacy` is last_config.json. `discovered` says whether the supervisor
-- knows its directories.
pub record Agent : Type 0 where
  pub cores : CoreType → Core
  pub snapshots : CoreType → Option String
  pub legacy : Option String
  pub discovered : Bool

-- A change at one core.
abbrev pub at_core : {A : Type 0} → CoreType → (A → A) → (CoreType → A) → CoreType → A
at_core core f t k = if same_core core k then f (t k) else t k

pub same_core_refl : (c : CoreType) → same_core c c ≡ true
same_core_refl sing_box = refl
same_core_refl mihomo = refl

abbrev pub with_core : CoreType → (Core → Core) → Agent → Agent
with_core core f a = record a { cores = at_core core f a.cores }

-- One step, which is carried out, or fails and changes nothing.
unfoldable pub step : (Agent → Agent) → Sql Agent (Unit {0})
step f c =
    if c.env.fails c.asked
    then (err io, record c { asked = suc c.asked })
    else (ok tt, record c { tables = f c.tables; asked = suc c.asked })

-- `let _ = ….await;`
abbrev pub ignored : Sql Agent (Unit {0}) → Sql Agent (Unit {0})
ignored m = attempt m >> done

-- A question that is answered yes or no; no answer counts as no.
unfoldable pub ask : Sql Agent Bool
ask c = (ok (if c.env.fails c.asked then false else true), record c { asked = suc c.asked })
