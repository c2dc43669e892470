-- ===== src/Push/Periodic.antt =====
-- The periodic pushes of crates/pp-hub/src/service/scheduler.rs.
use multi_proxy_panel.Prelude.{
  String, str_eq, Bool, true, false, List, [], ◌∷◌, Option, none, some, map, if◌then◌else◌,
}
use multi_proxy_panel.Db.{Result, ok, err, Sql, gets, select, attempt, done, ◌>>=◌, ◌>>◌}
use multi_proxy_panel.Hub.{Hub, Uuid}
use multi_proxy_panel.Hub.Agents.{agent_config_version}
use multi_proxy_panel.Protocol.{CoreType, sing_box, mihomo, core_name}
use multi_proxy_panel.Push.{
  Json, array, Config, get_key, Formats, check_bindings_for_core, core_build_id_of, push_version_of,
  deliver_config, distinct,
}

abbrev nonempty : Option Json → Bool
nonempty (some (array (x ∷ xs))) = true
nonempty _ = false

unfoldable pub has_inbounds : Config → Bool
has_inbounds config = nonempty (get_key "inbounds" config)

abbrev pub is_version : Option String → String → Bool
is_version none v = false
is_version (some w) v = str_eq w v

-- A sequence of loops and tests that answers nothing.
unfoldable pub for_each : {A : Type 0} → (A → Sql Hub (Unit {0})) → List A → Sql Hub (Unit {0})
for_each f [] = done
for_each f (x ∷ xs) = f x >> for_each f xs

module _ (f : Formats) (generate : Uuid → CoreType → Sql Hub (Config × Option String)) where
  -- Sent unless the agent is known to have this version. A failed delivery is logged.
  unfoldable pub push_version : Uuid → CoreType → String → Option String → Sql Hub (Unit {0})
  unfolding core_name agent_config_version
  push_version node core text core_version = do
    build ← core_build_id_of f core core_version
    current ← gets (agent_config_version node (core_name core))
    (if is_version current (push_version_of f text build) then done else (do
      attempt
          (deliver_config f node core text false (push_version_of f text build) core_version build)
      done))

  unfoldable pub push_generated :
      Uuid → CoreType → Result (Config × Option String) → Sql Hub (Unit {0})
  push_generated node core (err e) = done
  push_generated node core (ok (config, core_version)) =
      if has_inbounds config then push_version node core (f.serialize config) core_version else done

  unfoldable pub push_bound : Uuid → CoreType → Result Bool → Sql Hub (Unit {0})
  push_bound node core (err e) = done
  push_bound node core (ok has) =
      if has
      then (do generated ← attempt (generate node core); push_generated node core generated)
      else done

  unfoldable pub push_config_for_core : Uuid → CoreType → Sql Hub (Unit {0})
  push_config_for_core node core = do
    has ← attempt (check_bindings_for_core node core)
    push_bound node core has

  unfoldable pub push_updated_configs_for_clients : Sql Hub (Unit {0})
  push_updated_configs_for_clients = do
    bindings ← select (λ h. h.bindings) (λ b. b.is_active)
    for_each (λ node. push_config_for_core node sing_box >> push_config_for_core node mihomo)
        (distinct (map (λ b. b.node_id) bindings))
