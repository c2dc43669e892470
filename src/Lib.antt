-- ===== src/Lib.antt =====
-- ProxyPanel: a Hub (crates/pp-hub) keeps clients, nodes, protocol configs and bindings in a
-- database and speaks over gRPC with an Agent (crates/pp-agent) on every node, which runs the proxy
-- cores sing-box and mihomo. Agents report traffic and online users; the Hub checks limits every
-- few minutes, generates the config of each core (crates/pp-config) and pushes it. Requests to the
-- Hub's API carry a key, and are limited in rate. On start the Hub upgrades the data that older
-- versions left.
--
-- The files, and the code that each models:
--   Db            statements of the database, its failures, the clock and fresh ids: a handler is a
--                 function of the tables, of how many questions it has asked and of an environment that
--                 answers them. PanelError is that of crates/pp-common/src/error.rs. Db/Runs has
--                 the specifications of handlers, with a rule for each way to make one.
--   Hub           the rows (crates/pp-db/src/entities) and the state in memory; Hub/Events is
--                 trigger_event and log_event, Hub/Agents the connection table of
--                 crates/pp-hub/src/state.rs.
--   Scheduler     crates/pp-hub/src/service/scheduler.rs: check_client_traffic_resets,
--                 check_client_limits, check_on_hold_timeouts, cleanup_old_records, and in
--                 Scheduler/Run their order in run_periodic_checks. Scheduler/Sweep is what the three
--                 checks share.
--   Push          crates/pp-hub/src/service/protocol/push.rs, with push_node_config and the port check
--                 in Push/Node, the periodic pushes of the scheduler in Push/Periodic and
--                 reconcile_orphan_cores in Push/Orphans.
--   AgentService  crates/pp-hub/src/grpc/agent_service.rs: handle_traffic in AgentService/Traffic,
--                 handle_online_users in AgentService/Online.
--   ApiKey        require_api_key of crates/pp-hub/src/middleware/api_key.rs and ApiKeyCache of
--                 crates/pp-hub/src/state.rs.
--   Reporter      the deltas of traffic counters in crates/pp-agent/src/reporter.rs.
--   RateLimiter   crates/pp-hub/src/rate_limiter.rs.
--   DataUpgrade   crates/pp-db/src/upgrade.rs.
--   Relay         the match of a relay rule: the check of crates/pp-hub/src/routes/relay_rule.rs and
--                 match_spec of crates/pp-hub/src/service/protocol/relay.rs. Relay/Rules is the handlers
--                 of relay_rule.rs that write.
--   Settings      the readings of protocol settings, crates/pp-common/src/settings_helper.rs.
--   Builder       crates/pp-config: the inbounds and the config of sing-box (src/singbox.rs) in
--                 Builder/SingBox, Builder/SingBox/Full and Builder/SingBoxTls, those of mihomo
--                 (src/mihomo.rs) in Builder/Mihomo and Builder/MihomoUsers, the core versions in
--                 Builder/CoreVersion, and the outbounds of relays (src/relay.rs) in Builder/Hop.
--                 Builder/Loop is the loop over the inbounds.
--   ConfigGen     crates/pp-hub/src/service/protocol/config_gen.rs: the clients and the certificate
--                 of a binding in ConfigGen, the config of a node in ConfigGen/Node, and in
--                 ConfigGen/RelayRules apply_relay_rules of
--                 crates/pp-hub/src/service/protocol/relay.rs.
--   Subscription  crates/pp-subscription: the formats sing-box, Clash and share links, and in
--                 Subscription/Nodes, with its children, the choice of a client's nodes,
--                 crates/pp-hub/src/routes/subscription/generator.rs; the answer to a token,
--                 access.rs beside it, in Subscription/Serve.
--   Agent         crates/pp-agent and crates/pp-core: the managers and processes of the cores with
--                 the installation of a binary in Agent/Cores, pushes and commands
--                 (crates/pp-agent/src/client.rs) in Agent/Push, the saved configs
--                 (crates/pp-agent/src/persist.rs) in Agent/Snapshots, the start of the cores in
--                 Agent/Restore, the delays between connections in Agent/Reconnect, and reap_stale of
--                 crates/pp-core/src/lifecycle.rs in Agent/Lifecycle.
--   CliUpgrade    the upgrade command of crates/pp-cli/src/ops/upgrade.rs over a machine that has one
--                 binary, one web console, a backup of each and a service. What a failed step leaves
--                 behind is an argument. CliUpgrade/Service is systemd_wait_stable of
--                 crates/pp-cli/src/ops/systemd.rs.
--   Protocol      crates/pp-common/src/protocol.rs.
--   Json          the values of serde_json, their readings and writings.
--   Prelude       names passed on, Boolean tests, lists, the integers with the arithmetic of i64, and
--                 Rust's str in Prelude/Text.
--
-- A handler's loops are recursions on the list that the source goes through, so no fuel is needed;
-- systemd_wait_stable has the 30 rounds of its source, and the endless loop of the Agent's run is
-- given the ends of its connections as a list. The digits of a number are made with its successor
-- as fuel, and a number has no more digits than that. A function that the source writes as one is
-- cut where a match or an `if` needs a name of its own; the parts stand above it in the same file.
-- Integers of the source that are never negative are ℕ; counters of bytes are ℤ with the
-- wrap-around of i64, and u64 and u16 wrap where the source casts or multiplies. A status is a data
-- type, as the tables admit no other value. A HashMap is the list of its insertions. A statement
-- may fail at any point, with what was written before it kept, since the handlers open no
-- transaction; a constraint that the database enforces is one reason for a failure.
--
-- What is an argument: floating point, chrono, uuid, the texts of serde_json and serde_yaml, Base64,
-- percent-encoding, the check against the JSON schema, sha2 with hex, Argon2, environment variables,
-- downloads, what a failed unpacking leaves of a binary, and of the repository's own code the bodies
-- of the data upgrade steps, ip_matches, and in Push the generator of a node's config, which ConfigGen models over tables of its own, each named
-- where it is used.
--
-- Not modelled: errors of try_exists, which the Agent reads as an absent file, the end of an Agent's
-- stream but for the two functions that it calls on the tables, the CRUD routes but those of relay rules, and the SQL that sea-orm makes of them, logins, the Agent's stream and host metrics, the archives and asset names of the
-- installer, the output of the cores, the other commands of crates/pp-cli, certificates, generated
-- gRPC code, the web panel, and logging. Log entries and messages are kept without their text; the
-- builders' messages are kept, as the builders look into them.
pub mod Prelude
pub mod Db
pub mod DataUpgrade
pub mod Hub
pub mod RateLimiter
pub mod Scheduler
pub mod AgentService
pub mod Protocol
pub mod Push
pub mod ApiKey
pub mod CliUpgrade
pub mod Relay
pub mod Reporter
pub mod Json
pub mod Settings
pub mod Builder
pub mod ConfigGen
pub mod Agent
pub mod Subscription
