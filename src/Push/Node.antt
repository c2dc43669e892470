-- ===== src/Push/Node.antt =====
-- push_node_config and validate_node_port_conflicts of crates/pp-hub/src/service/protocol/push.rs.
pub mod Ports
mod Tests
use multi_proxy_panel.Prelude.{
  ℕ, ℤ, pos, negsuc, ◌-◌, ◌%◌, String, str_eq, Bool, true, false, ◌&&◌, List, [], ◌∷◌, Option, none,
  some, ◌==◌, any, if◌then◌else◌,
}
use multi_proxy_panel.Db.{
  PanelError, validation, Result, ok, err, Sql, raise, lift, select, attempt, done, ◌>>=◌, ◌>>◌,
}
use multi_proxy_panel.Hub.{Hub, Uuid, NodeBinding, ProtocolConfig}
use multi_proxy_panel.Protocol.{CoreType, same_core}
use multi_proxy_panel.Push.{
  Config, Formats, parse_core_type, core_build_id_of, push_version_of, deliver_config,
}

-- What a binding listens on, and with which core.
abbrev pub Endpoint : Type 0
Endpoint = String × (ℕ × CoreType)

abbrev pub same_endpoint : Endpoint → Endpoint → Bool
same_endpoint a b = str_eq a.0 b.0 && (a.1.0 == b.1.0) && same_core a.1.1 b.1.1

-- `as u16`
abbrev as_u16 : ℤ → ℕ
as_u16 (pos n) = n % 65536
as_u16 (negsuc n) = 65535 - n % 65536

abbrev address : NodeBinding → ProtocolConfig → String
address b c = elim (b.override_address) [ none ↦ c.listen_address | some a ↦ a ]

abbrev port : NodeBinding → ProtocolConfig → ℕ
port b c = elim (b.override_port) [ none ↦ as_u16 c.listen_port | some p ↦ p % 65536 ]

unfoldable pub endpoint : NodeBinding → ProtocolConfig → Endpoint
endpoint b c = (address b c, (port b c, parse_core_type c.core_type))

-- A binding whose config is gone is passed over.
unfoldable pub next_ports :
    NodeBinding → List ProtocolConfig → List Endpoint → Result (List Endpoint)
next_ports b [] seen = ok seen
next_ports b (c ∷ cs) seen =
    if any (λ s. same_endpoint s (endpoint b c)) seen
    then err validation
    else ok (endpoint b c ∷ seen)

unfoldable pub ports_loop : List NodeBinding → List Endpoint → Sql Hub (Unit {0})
ports_loop [] seen = done
ports_loop (b ∷ bs) seen = do
  config ← select (λ h. h.configs) (λ c. c.id == b.protocol_config_id)
  seen' ← lift (next_ports b config seen)
  ports_loop bs seen'

unfoldable pub validate_node_port_conflicts : Uuid → Sql Hub (Unit {0})
validate_node_port_conflicts node = do
  bindings ← select (λ h. h.bindings) (λ b. b.node_id == node && b.is_active)
  ports_loop bindings []

-- `.map_err(|e| PanelError::Validation(…))`
abbrev as_validation : Result (Unit {0}) → Result (Unit {0})
as_validation (ok u) = ok u
as_validation (err e) = err validation

abbrev chosen : Option String → String → String
chosen none computed = computed
chosen (some v) computed = if str_eq v "" then computed else v

module _ (f : Formats) (generate : Uuid → CoreType → Sql Hub (Config × Option String)) where
  unfoldable pub push_node_config : Uuid → CoreType → Bool → Option String → Sql Hub (Unit {0})
  push_node_config node core restart version = do
    checked ← attempt (validate_node_port_conflicts node)
    lift (as_validation checked)
    generated ← generate node core
    build ← core_build_id_of f core generated.1
    deliver_config f node core (f.serialize generated.0) restart
        (chosen version (push_version_of f (f.serialize generated.0) build)) generated.1 build
