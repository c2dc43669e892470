-- ===== src/Push.antt =====
-- Config pushes to agents: crates/pp-hub/src/service/protocol/push.rs and the pushes of
-- crates/pp-hub/src/service/scheduler.rs. `serde_json`, the hash and its spelling in hex, the
-- Unix time in digits and the generator of a node's config are arguments.
pub mod Node
pub mod Periodic
pub mod Orphans
mod Tests
use Prim.Native.String.{◌++◌ as text_append}
use multi_proxy_panel.Prelude.{
  ℕ, String, str_eq, Bool, true, false, not, ◌&&◌, List, [], ◌∷◌, ◌++◌, Option, none, some, ◌==◌,
  any, find, retain, map, unwrap_or, if◌then◌else◌,
}
use multi_proxy_panel.Db.{
  PanelError, database, Result, ok, err, Sql, pure, raise, lift, gets, select, statement, memory,
  modify, attempt, utc_now, new_v4, done, ◌>>=◌, ◌>>◌,
}
use multi_proxy_panel.Hub.{
  Hub, Uuid, Time, NodeBinding, ProtocolConfig, PendingUpdate, CoreVersion, HubMessage, config_push,
  core_stop, map_where,
}
use multi_proxy_panel.Hub.Agents.{agent_config_version, set_agent_config_version, send_to_agent}
use multi_proxy_panel.Protocol.{CoreType, sing_box, mihomo, core_name, parse_core, same_core}

-- A JSON value, where an array's elements and other values stay texts.
pub data Json : Type 0 where
  array : List String → Json
  value : String → Json

abbrev pub Config : Type 0
Config = List (String × Json)

abbrev pub get_key : String → Config → Option Json
get_key k config = elim (find (λ e. str_eq e.0 k) config) [ none ↦ none | some e ↦ some e.1 ]

pub record Formats : Type 0 where
  pub serialize : Config → String
  -- the first 8 bytes of the SHA-256, in hex
  pub digest : String → String
  pub unix_text : Time → String

-- parse_core_type: what is no core counts as sing-box.
unfoldable pub parse_core_type : String → CoreType
unfolding parse_core
parse_core_type s = unwrap_or (parse_core s) sing_box

abbrev pub core_of : List ProtocolConfig → CoreType
core_of [] = parse_core_type ""
core_of (c ∷ cs) = parse_core_type c.core_type

-- Whether one of these bindings is for the core.
unfoldable pub any_binding : CoreType → List NodeBinding → Sql Hub Bool
any_binding core [] = pure false
any_binding core (b ∷ bs) = do
  config ← select (λ h. h.configs) (λ c. c.id == b.protocol_config_id)
  (if same_core (core_of config) core then pure true else any_binding core bs)

unfoldable pub check_bindings_for_core : Uuid → CoreType → Sql Hub Bool
check_bindings_for_core node core = do
  bindings ← select (λ h. h.bindings) (λ b. b.node_id == node && b.is_active)
  any_binding core bindings

unfoldable pub clear_pending : Uuid → CoreType → Sql Hub (Unit {0})
unfolding core_name
clear_pending node core = statement λ h. (
  ok tt,
  record h {
    pending_updates =
        retain (λ p. not (p.node_id == node && str_eq p.core_type (core_name core)))
          h.pending_updates;
  },
)

abbrev set_pending : String → Time → Uuid → Hub → Result (Unit {0}) × Hub
set_pending update_type now id h =
    if any (λ r. r.id == id) h.pending_updates
    then (
      ok tt,
      record h {
        pending_updates =
            map_where (λ r. r.id == id)
              (λ r. record r { update_type = update_type; updated_at = now }) h.pending_updates;
      },
    )
    else (err database, h)

unfoldable pub upsert_pending :
    Uuid → CoreType → String → Time → List PendingUpdate → Sql Hub (Unit {0})
unfolding core_name
upsert_pending node core update_type now (row ∷ rows) =
    statement (set_pending update_type now row.id)
upsert_pending node core update_type now [] = do
  id ← new_v4
  statement λ h. (
    ok tt,
    record h {
      pending_updates =
          h.pending_updates
          ++ record {
            id = id;
            node_id = node;
            core_type = core_name core;
            update_type = update_type;
            updated_at = now;
          }
            ∷ [];
    },
  )

unfoldable pub mark_loop : CoreType → String → Time → List Uuid → Sql Hub (Unit {0})
unfolding core_name
mark_loop core update_type now [] = done
mark_loop core update_type now (node ∷ nodes) = do
  existing ←
      select (λ h. h.pending_updates)
        (λ p. p.node_id == node && str_eq p.core_type (core_name core))
  upsert_pending node core update_type now existing
  mark_loop core update_type now nodes

unfoldable pub mark_pending : List Uuid → CoreType → String → Sql Hub (Unit {0})
mark_pending nodes core update_type = do now ← utc_now; mark_loop core update_type now nodes

-- A `HashSet` of ids in the order of insertion.
abbrev pub distinct : List Uuid → List Uuid
distinct [] = []
distinct (n ∷ ns) = let rest = distinct ns in if any (λ i. i == n) rest then rest else n ∷ rest

unfoldable pub nodes_using_config : Uuid → Sql Hub (List Uuid)
nodes_using_config config = do
  bindings ← select (λ h. h.bindings) (λ b. b.protocol_config_id == config && b.is_active)
  pure (distinct (map (λ b. b.node_id) bindings))

abbrev version_row : Result (List CoreVersion) → Option CoreVersion
version_row (err e) = none
version_row (ok []) = none
version_row (ok (v ∷ vs)) = some v

abbrev default_version : CoreType → Option String
default_version sing_box = some "v1.13.14"
default_version mihomo = none

unfoldable pub effective_core_version : CoreType → Sql Hub (Option String)
unfolding core_name
effective_core_version core = do
  rows ←
      attempt
        (select (λ h. h.core_versions) (λ v. str_eq v.core_type (core_name core) && v.is_active))
  pure (elim (version_row rows) [ none ↦ default_version core | some v ↦ some v.version ])

module _ (f : Formats) where
  abbrev build_text : Option CoreVersion → String
  build_text none = ""
  build_text (some v) = elim (v.published_at) [ none ↦ "" | some t ↦ f.unix_text t ]

  unfoldable pub core_build_id_of : CoreType → Option String → Sql Hub String
  unfolding core_name
  core_build_id_of core none = pure ""
  core_build_id_of core (some version) = if str_eq version "" then pure "" else (do
    rows ← attempt (
        select (λ h. h.core_versions)
          (λ v. str_eq v.core_type (core_name core) && str_eq v.version version))
    pure (build_text (version_row rows)))

  unfoldable pub push_version_of : String → String → String
  push_version_of config build =
      if str_eq build ""
      then f.digest config
      else f.digest (text_append config (text_append "#build:" build))

  -- The message, the version kept for the agent, and the pending marker, whose removal may fail.
  unfoldable pub deliver_config :
      Uuid → CoreType → String → Bool → String → Option String → String → Sql Hub (Unit {0})
  unfolding core_name send_to_agent set_agent_config_version
  deliver_config node core text restart version core_version build = do
    memory (
        send_to_agent node
          (config_push core text restart version (unwrap_or core_version "") build))
    modify (set_agent_config_version node (core_name core) version)
    attempt (clear_pending node core)
    done
