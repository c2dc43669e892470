-- ===== src/Push/Orphans.antt =====
-- reconcile_orphan_cores of crates/pp-hub/src/service/scheduler.rs, and the stops that it sends again.
use multi_proxy_panel.Prelude.{
  ℕ, zero, suc, ◌≡◌, refl, sym, ap, ◌∙◌, subst, String, Bool, true, List, [], ◌∷◌, ◌++◌, Option,
  none, some, ◌==◌, map, Option-cases, inl, inr, false≢true, is_some, if◌then◌else◌,
}
use multi_proxy_panel.Db.{
  Result, ok, err, Conn, Sql, gets, memory, modify, attempt, done, ◌>>=◌, ◌>>◌,
}
use multi_proxy_panel.Hub.{Hub, Uuid, AgentConnection, HubMessage, core_stop}
use multi_proxy_panel.Hub.Agents.{
  get_agent, version_of, set_version, find-map_where, agent_config_version,
  set_agent_config_version, send_to_agent, sent_hub, send_to_agent-open, agent_config_version-found,
}
use multi_proxy_panel.Protocol.{CoreType, sing_box, mihomo, core_name}
use multi_proxy_panel.Push.{check_bindings_for_core}
use multi_proxy_panel.Push.Periodic.{for_each}

unfoldable pub after_stop : Uuid → CoreType → Result (Unit {0}) → Sql Hub (Unit {0})
unfolding core_name set_agent_config_version
after_stop node core (ok u) = modify (set_agent_config_version node (core_name core) "")
after_stop node core (err e) = done

-- The stop of a core with a recorded version.
unfoldable pub stop_known : Uuid → CoreType → Option String → Sql Hub (Unit {0})
unfolding send_to_agent
stop_known node core none = done
stop_known node core (some version) = do
  sent ← attempt (memory (send_to_agent node (core_stop core)))
  after_stop node core sent

unfoldable pub stop_unbound : Uuid → CoreType → Sql Hub (Unit {0})
unfolding core_name agent_config_version
stop_unbound node core = do
  version ← gets (agent_config_version node (core_name core))
  stop_known node core version

-- A failed check of the bindings counts as bindings found.
abbrev bound : Result Bool → Bool
bound (ok has) = has
bound (err e) = true

unfoldable pub stop_orphan : Uuid → CoreType → Sql Hub (Unit {0})
stop_orphan node core = do
  has ← attempt (check_bindings_for_core node core)
  (if bound has then done else stop_unbound node core)

unfoldable pub reconcile_orphan_cores : Sql Hub (Unit {0})
reconcile_orphan_cores = do
  ids ← gets (λ h. map (λ a. a.agent_id) h.agents)
  for_each (λ node. stop_orphan node sing_box >> stop_orphan node mihomo) ids

-- `n` passes over a node and a core without a binding.
abbrev pub passes : Uuid → CoreType → ℕ → Conn Hub → Conn Hub
passes node core zero c = c
passes node core (suc n) c = passes node core n (stop_unbound node core c).1

abbrev pub repeat : {A : Type 0} → ℕ → A → List A
repeat zero x = []
repeat (suc n) x = x ∷ repeat n x

-- The agent is connected, has a version recorded for the core, and was sent these messages.
abbrev pub Connected : Uuid → CoreType → List HubMessage → Hub → Type 0
Connected node core messages h =
    (a : AgentConnection) × (get_agent node h ≡ some a)
    × (a.open_channel ≡ true)
    × (is_some (version_of (core_name core) a.config_versions) ≡ true)
    × (a.sent ≡ messages)

recorded :
    (core : CoreType) (vs : List (String × String))
    → is_some (version_of (core_name core) (set_version (core_name core) "" vs)) ≡ true
unfolding core_name
recorded sing_box vs = refl
recorded mihomo vs = refl

-- What a stop leaves.
stopped : Uuid → CoreType → Hub → Hub
stopped node core h =
    set_agent_config_version node (core_name core) "" (sent_hub node (core_stop core) h)

stop_unbound-stopped :
    (node : Uuid) (core : CoreType) (c : Conn Hub) (a : AgentConnection)
    → get_agent node c.tables ≡ some a
    → a.open_channel ≡ true
    → is_some (version_of (core_name core) a.config_versions) ≡ true
    → (stop_unbound node core c).1.tables ≡ stopped node core c.tables
unfolding stop_unbound stop_known after_stop ◌>>=◌ stopped
stop_unbound-stopped node core c a found open_ version =
    elim (Option-cases (version_of (core_name core) a.config_versions)) [
      | inl n ↦ absurd (false≢true (sym (ap is_some n) ∙ version))
      | inr (v, s) ↦
          ap (λ w. (stop_known node core w c).1.tables)
            (agent_config_version-found node (core_name core) c.tables a found ∙ s)
          ∙ ap
              (λ (r : Result (Unit {0}) × Hub).
                (after_stop node core r.0 (record c { tables = r.1 })).1.tables)
              (send_to_agent-open node (core_stop core) c.tables a found open_)
    ]

stop_unbound-Connected :
    (node : Uuid) (core : CoreType) (messages : List HubMessage) (c : Conn Hub)
    → Connected node core messages c.tables
    → Connected node core (messages ++ core_stop core ∷ []) (stop_unbound node core c).1.tables
unfolding stopped set_agent_config_version
stop_unbound-Connected node core messages c (a, found, open_, version, sent) =
    subst (Connected node core (messages ++ core_stop core ∷ []))
      (sym (stop_unbound-stopped node core c a found open_ version))
      (
        _,
        find-map_where (λ x. x.agent_id == node) _ _ _ (λ x. refl)
            (find-map_where (λ x. x.agent_id == node) _ _ a (λ x. refl) found),
        open_,
        recorded core a.config_versions,
        ap (λ l. l ++ core_stop core ∷ []) sent,
      )

++-assoc : {A : Type 0} (xs : List A) (y : A) (zs : List A) → (xs ++ y ∷ []) ++ zs ≡ xs ++ (y ∷ zs)
++-assoc [] y zs = refl
++-assoc (x ∷ xs) y zs = ap (λ l. x ∷ l) (++-assoc xs y zs)

++-nil : {A : Type 0} (xs : List A) → xs ++ [] ≡ xs
++-nil [] = refl
++-nil (x ∷ xs) = ap (λ l. x ∷ l) (++-nil xs)

-- The stop of an orphan core does not forget the version: it records an empty one, so each pass sends
-- the stop again to an agent that stays connected.
pub passes-Connected :
    (node : Uuid) (core : CoreType) (n : ℕ) (messages : List HubMessage) (c : Conn Hub)
    → Connected node core messages c.tables
    → Connected node core (messages ++ repeat n (core_stop core)) (passes node core n c).tables
passes-Connected node core zero messages c h =
    subst (λ l. Connected node core l c.tables) (sym (++-nil messages)) h
passes-Connected node core (suc n) messages c h =
    subst (λ l. Connected node core l (passes node core n (stop_unbound node core c).1).tables)
      (++-assoc messages (core_stop core) (repeat n (core_stop core)))
      (passes-Connected node core n _ (stop_unbound node core c).1
        (stop_unbound-Connected node core messages c h))
