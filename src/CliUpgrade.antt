-- ===== src/CliUpgrade.antt =====
-- The command line's upgrade of a component: crates/pp-cli/src/ops/upgrade.rs, from the
-- decision on. A step on the file system or on the service may fail, and then leaves
-- there anything at all. The download of the release, the version that a binary prints, the order of
-- versions and systemd are arguments. Other backups than the one of this upgrade are left out, and so
-- are owners and modes of files.
pub mod Service
pub mod Recovery
pub mod Rollback
pub mod Transaction
mod Tests
use Prim.Native.Nat.{Ordering}
use multi_proxy_panel.Prelude.{
  ℕ, suc, String, str_eq, Bool, true, false, not, ◌&&◌, List, [], ◌∷◌, ◌++◌, Option, none, some,
  any, retain, if◌then◌else◌,
}
use multi_proxy_panel.Db.{
  PanelError, io, validation, Result, ok, err, Conn, Sql, pure, raise, lift, gets, modify, attempt,
  done, ◌>>=◌, ◌>>◌,
}

-- The files under a directory, by their path in it.
abbrev pub Tree : Type 0
Tree = List (String × String)

-- Copying merges into a directory that is there.
unfoldable pub copied : Tree → Option Tree → Tree
copied src none = src
copied src (some dst) = src ++ retain (λ d. not (any (λ s. str_eq s.0 d.0) src)) dst

pub record Machine : Type 0 where
  pub binary : Option String
  pub web : Option Tree
  pub binary_backup : Option String
  pub web_backup : Option Tree
  pub active : Bool
  pub stages : List String

-- What the n-th step leaves if it fails.
pub record Left : Type 0 where
  pub file : ℕ → Option String
  pub tree : ℕ → Option Tree
  pub unit : ℕ → Bool

pub record Component : Type 0 where
  pub has_unit : Bool
  pub with_web : Bool

unfoldable pub component : String → Option Component
component name =
    if str_eq name "hub"
    then some (record { has_unit = true; with_web = true })
    else if str_eq name "agent"
    then some (record { has_unit = true; with_web = false })
    else if str_eq name "cli"
    then some (record { has_unit = false; with_web = false })
    else none

pub data UpgradeDecision : Type 0 where
  proceed skip : UpgradeDecision

-- `skipped` and `succeeded` are `Ok`, the others errors; `rolled_back` is the flag of that name.
pub data Outcome : Type 0 where
  skipped succeeded rolled_back unrecovered : Outcome

-- One step, which is carried out or fails.
unfoldable pub step : (Machine → Machine) → (ℕ → Machine → Machine) → Sql Machine (Unit {0})
step good bad c =
    if c.env.fails c.asked
    then (err io, record c { tables = bad c.asked c.tables; asked = suc c.asked })
    else (ok tt, record c { tables = good c.tables; asked = suc c.asked })

-- The status file is written.
unfoldable pub stage : String → Sql Machine (Unit {0})
stage s = step (λ m. record m { stages = m.stages ++ s ∷ [] }) (λ n m. m)

unfoldable pub by_order : Ordering → Result UpgradeDecision
by_order Ordering.eq = ok skip
by_order Ordering.gt = err validation
by_order Ordering.lt = ok proceed

module _ (compare : String → String → Result Ordering) where
  abbrev decided : Result Ordering → Result UpgradeDecision
  decided (ok o) = by_order o
  decided (err e) = err e

  unfoldable pub plan_upgrade : Option String → String → Result UpgradeDecision
  plan_upgrade none target = ok proceed
  plan_upgrade (some current) target = decided (compare current target)

abbrev is_there : {A : Type 0} → Option A → Bool
is_there none = false
is_there (some x) = true

-- The answer of `systemctl is-active`; no answer counts as no.
unfoldable pub is_active : Bool → Sql Machine Bool
is_active false c = (ok false, c)
is_active true c =
    if c.env.fails c.asked
    then (ok false, record c { asked = suc c.asked })
    else (ok c.tables.active, record c { asked = suc c.asked })

unfoldable pub when_running : Bool → Sql Machine (Unit {0}) → Sql Machine (Unit {0})
when_running running m = if running then m else done

unfoldable pub both_ok :
    Result (Unit {0}) → Result (Unit {0}) → Result (Unit {0}) → Result (Unit {0})
both_ok (ok a) (ok b) r = r
both_ok (ok a) (err e) r = err e
both_ok (err e) b r = err e

module _ (left : Left) where
  -- `copy_file`, from a place that may be empty.
  unfoldable pub put_binary : Option String → Sql Machine (Unit {0})
  put_binary none = raise io
  put_binary (some b) =
      step (λ m. record m { binary = some b }) (λ n m. record m { binary = left.file n })

  unfoldable pub put_web : Option Tree → Sql Machine (Unit {0})
  put_web none = raise io
  put_web (some t) =
      step (λ m. record m { web = some (copied t m.web) }) (λ n m. record m { web = left.tree n })

  -- Whether there is a backup then.
  unfoldable pub backup_binary : Option String → Sql Machine Bool
  backup_binary none = pure false
  backup_binary (some b) = do
    step (λ m. record m { binary_backup = some b })
        (λ n m. record m { binary_backup = left.file n })
    pure true

  unfoldable pub backup_web : Option Tree → Sql Machine Bool
  backup_web none = pure false
  backup_web (some t) = do
    step (λ m. record m { web_backup = some (copied t m.web_backup) })
        (λ n m. record m { web_backup = left.tree n })
    pure true

  unfoldable pub remove_binary : Option String → Sql Machine (Unit {0})
  remove_binary none = done
  remove_binary (some b) =
      step (λ m. record m { binary = none }) (λ n m. record m { binary = left.file n })

  unfoldable pub remove_web : Option Tree → Sql Machine (Unit {0})
  remove_web none = done
  remove_web (some t) = step (λ m. record m { web = none }) (λ n m. record m { web = left.tree n })

  unfoldable pub restore_binary : Bool → Sql Machine (Unit {0})
  restore_binary backup = do
    there ← gets (λ m. m.binary)
    remove_binary there
    saved ← gets (λ m. m.binary_backup)
    (if backup then put_binary saved else done)

  unfoldable pub restore_web : Bool → Sql Machine (Unit {0})
  restore_web backup = do
    there ← gets (λ m. m.web)
    remove_web there
    saved ← gets (λ m. m.web_backup)
    (if backup then put_web saved else done)

  unfoldable pub systemd_stop : Sql Machine (Unit {0})
  systemd_stop = step (λ m. record m { active = false }) (λ n m. record m { active = left.unit n })

  -- The restart, and the wait until the unit has stayed active.
  unfoldable pub restart_and_wait : Sql Machine (Unit {0})
  restart_and_wait = do
    step (λ m. record m { active = true }) (λ n m. record m { active = left.unit n })
    step (λ m. record m { active = true }) (λ n m. record m { active = left.unit n })

  -- All is tried; a failure of any part is an error.
  unfoldable pub recover : Component → Bool → Bool → Bool → Sql Machine (Unit {0})
  recover c binary_backup web_backup was_active = do
    binary ← attempt (restore_binary binary_backup)
    web ← attempt (if c.with_web then restore_web web_backup else done)
    service ← attempt (when_running was_active restart_and_wait)
    lift (both_ok binary web service)

module _ (left : Left) (compare : String → String → Result Ordering)
    (version_of : String → Result String) where
  unfoldable pub same_version : Result Ordering → Result (Unit {0})
  same_version (ok Ordering.eq) = ok tt
  same_version (ok Ordering.lt) = err validation
  same_version (ok Ordering.gt) = err validation
  same_version (err e) = err e

  -- installed_version_strict: an absent binary has none.
  unfoldable pub installed_version : Option String → Sql Machine (Option String)
  installed_version none = pure none
  installed_version (some b) = do step (λ m. m) (λ n m. m); v ← lift (version_of b); pure (some v)

  abbrev verified : Option String → String → Result (Unit {0})
  verified none target = err io
  verified (some actual) target = same_version (compare actual target)

  -- The new console replaces the old one; a failing change of owner is passed over.
  unfoldable pub replace_web : Option Tree → Sql Machine (Unit {0})
  replace_web new_web = do
    there ← gets (λ m. m.web)
    remove_web left there
    step (λ m. m) (λ n m. m)
    put_web left new_web

  unfoldable pub replace_and_verify :
      Component → String → Option Tree → String → Bool → Sql Machine (Unit {0})
  replace_and_verify c new_binary new_web target was_active = do
    put_binary left (some new_binary)
    step (λ m. m) (λ n m. m)
    (if c.with_web then replace_web new_web else done)
    there ← gets (λ m. m.binary)
    actual ← installed_version there
    lift (verified actual target)
    when_running was_active (restart_and_wait left)

  -- After the replacement, or after the recovery from a failed one.
  unfoldable pub recovered : Result (Unit {0}) → Sql Machine Outcome
  recovered (ok u) = pure rolled_back
  recovered (err e) = pure unrecovered

  unfoldable pub conclude : Component → Bool → Bool → Bool → Result (Unit {0}) → Sql Machine Outcome
  conclude c binary_backup web_backup was_active (ok u) = do stage "completed"; pure succeeded
  conclude c binary_backup web_backup was_active (err e) = do
    attempt (stage "rollback")
    r ← attempt (recover left c binary_backup web_backup was_active)
    recovered r

  -- From the backup on.
  unfoldable pub install : Component → String → String → Option Tree → Sql Machine Outcome
  install c target new_binary new_web = do
    old_binary ← gets (λ m. m.binary)
    binary_backup ← backup_binary left old_binary
    old_web ← gets (λ m. m.web)
    web_backup ← (if c.with_web then backup_web left old_web else pure false)
    was_active ← is_active c.has_unit
    when_running was_active (systemd_stop left)
    stage "replacing"
    result ← attempt (replace_and_verify c new_binary new_web target was_active)
    conclude c binary_backup web_backup was_active result

  module _ (download : Component → String → Sql Machine (String × Option Tree)) where
    unfoldable pub carry_out : Component → String → UpgradeDecision → Sql Machine Outcome
    carry_out c target skip = do stage "skipped"; pure skipped
    carry_out c target proceed = do
      stage "preparing"
      new ← download c target
      step (λ m. m) (λ n m. m)
      install c target new.0 new.1

    -- `target` is the version of the release that was resolved.
    unfoldable pub perform_upgrade : Component → String → Sql Machine Outcome
    perform_upgrade c target = do
      stage "resolving"
      there ← gets (λ m. m.binary)
      current ← installed_version there
      decision ← lift (plan_upgrade compare current target)
      carry_out c target decision
