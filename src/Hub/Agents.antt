-- ===== src/Hub/Agents.antt =====
-- The connection table of the agents: the methods of `AppState` in crates/pp-hub/src/state.rs. A full
-- channel makes `send` wait; a closed one makes it fail.
use multi_proxy_panel.Prelude.{
  ◌≡◌, refl, ap, subst, ◌∙◌, false≢true, is_some, Bool-cases, inl, inr, String, str_eq, Bool, true,
  not, List, [], ◌∷◌, ◌++◌, Option, none, some, ◌==◌, find, retain, if◌then◌else◌,
}
use multi_proxy_panel.Db.{Result, ok, err, internal}
use multi_proxy_panel.Hub.{Hub, Uuid, AgentConnection, HubMessage, map_where}

abbrev pub get_agent : Uuid → Hub → Option AgentConnection
get_agent id h = find (λ a. a.agent_id == id) h.agents

unfoldable pub register_agent : Uuid → Bool → List (String × String) → Hub → Hub
register_agent id open_ versions h = record h {
  agents =
      record { agent_id = id; open_channel = open_; config_versions = versions; sent = [] }
      ∷ retain (λ a. not (a.agent_id == id)) h.agents;
}

abbrev pub version_of : String → List (String × String) → Option String
version_of core vs = elim (find (λ v. str_eq v.0 core) vs) [ none ↦ none | some v ↦ some v.1 ]

abbrev version_in : String → Option AgentConnection → Option String
version_in core none = none
version_in core (some a) = version_of core a.config_versions

unfoldable pub agent_config_version : Uuid → String → Hub → Option String
agent_config_version id core h = version_in core (get_agent id h)

abbrev pub set_version : String → String → List (String × String) → List (String × String)
set_version core version vs = (core, version) ∷ retain (λ v. not (str_eq v.0 core)) vs

unfoldable pub set_agent_config_version : Uuid → String → String → Hub → Hub
set_agent_config_version id core version h = record h {
  agents =
      map_where (λ a. a.agent_id == id)
        (λ a. record a { config_versions = set_version core version a.config_versions }) h.agents;
}

unfoldable pub unregister_agent : Uuid → Hub → Hub
unregister_agent id h = record h { agents = retain (λ a. not (a.agent_id == id)) h.agents }

abbrev pub sent_hub : Uuid → HubMessage → Hub → Hub
sent_hub id message h = record h {
  agents =
      map_where (λ a. a.agent_id == id) (λ a. record a { sent = a.sent ++ message ∷ [] }) h.agents;
}

abbrev send_over : Uuid → HubMessage → Hub → Option AgentConnection → Result (Unit {0}) × Hub
send_over id message h none = (err internal, h)
send_over id message h (some a) =
    if a.open_channel then (ok tt, sent_hub id message h) else (err internal, h)

unfoldable pub send_to_agent : Uuid → HubMessage → Hub → Result (Unit {0}) × Hub
send_to_agent id message h = send_over id message h (get_agent id h)

pub send_to_agent-open :
    (id : Uuid) (message : HubMessage) (h : Hub) (a : AgentConnection)
    → get_agent id h ≡ some a
    → a.open_channel ≡ true
    → send_to_agent id message h ≡ (ok tt, sent_hub id message h)
unfolding send_to_agent
send_to_agent-open id message h a found o = ap (send_over id message h) found ∙ rw o refl

pub agent_config_version-found :
    (id : Uuid) (core : String) (h : Hub) (a : AgentConnection)
    → get_agent id h ≡ some a
    → agent_config_version id core h ≡ version_of core a.config_versions
unfolding agent_config_version
agent_config_version-found id core h a found = ap (version_in core) found

-- The connection that is changed is the one that is found next.
pub find-map_where :
    (p : AgentConnection → Bool) (f : AgentConnection → AgentConnection) (xs : List AgentConnection)
    (a : AgentConnection)
    → ((x : AgentConnection) → p (f x) ≡ p x)
    → find p xs ≡ some a
    → find p (map_where p f xs) ≡ some (f a)
find-map_where p f [] a same e = absurd (false≢true (ap is_some e))
find-map_where p f (x ∷ xs) a same e = elim (Bool-cases (p x)) [
  | inl t ↦
      rw (t, same x, t)
        (ap (λ (o : Option AgentConnection). elim o [ none ↦ none | some y ↦ some (f y) ])
          (subst (λ b. (if b then some x else find p xs) ≡ some a) t e))
  | inr t ↦
      rw (t, t)
        (find-map_where p f xs a same (subst (λ b. (if b then some x else find p xs) ≡ some a) t e))
]
