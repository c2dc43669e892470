-- ===== src/Agent/Tests.antt =====
-- Runs of the Agent.
use multi_proxy_panel.Prelude.{
  ◌≡◌, refl, ◌==◌, String, str_eq, Bool, true, false, [], ◌∷◌, Option, none, some, if◌then◌else◌,
  ◌⊎◌, ℕ, In, inl,
}
use multi_proxy_panel.Prelude.Text.{is_empty}
use multi_proxy_panel.Db.{ok, Conn, pure, lift, ◌>>=◌, ◌>>◌}
use multi_proxy_panel.Json.{Value, json_object}
use multi_proxy_panel.Protocol.{sing_box, mihomo, parse_core, core_name}
use multi_proxy_panel.Agent.{Agent, Core, step}
use multi_proxy_panel.Agent.Snapshots.{Codec, snapshot_of, save_last_config, load_last_configs}
use multi_proxy_panel.Agent.Snapshots.RoundTrip.{snapshot_in, load_last_configs-save}
use multi_proxy_panel.Agent.Snapshots.Kept.{load_last_configs-legacy}
use multi_proxy_panel.Agent.Cores.{
  Downloads, start, start_from, stop, restart, manager_for, ensure_manager,
}
use multi_proxy_panel.Agent.Push.{
  ConfigPush, handle_config_push, core_type_from_i32, applied_already, apply_push,
  ensure_core_build,
}
use multi_proxy_panel.Agent.Push.Build.{IsKept, ensure_core_build-IsKept}
use multi_proxy_panel.Agent.Push.Applied.{handle_config_push-RunsWith}
use multi_proxy_panel.Agent.Push.Skipped.{handle_config_push-skips}
use multi_proxy_panel.Agent.Lifecycle.{Os, reap_stale, reap_stale-spares}

-- The version alone is written, since the other fields are the same in these runs.
abbrev codec : Codec
codec = record {
  to_vec = λ s. s.version;
  from_slice =
      λ raw. some (record { core_type = "sing-box"; config = json_object []; version = raw });
}

abbrev downloads : Downloads
downloads = record { fetched = λ core version. "new"; left = λ n. some "part" }

abbrev box : Core
box = record {
  binary = some "old";
  backup = none;
  build_id = none;
  registered = true;
  process = none;
  started = false;
}

abbrev agent : Agent
agent = record {
  cores = λ core. box;
  snapshots = λ core. elim core [ sing_box ↦ some "v1" | mihomo ↦ none ];
  legacy = none;
  discovered = true;
}

abbrev calm : Agent → Conn Agent
calm a = record {
  tables = a;
  asked = 0;
  env = record { fails = λ n. false; now = λ n. 0; uuid = λ n. 0 };
}

abbrev failing : ℕ → Agent → Conn Agent
failing k a = record (calm a) { env = record { fails = λ n. n == k; now = λ n. 0; uuid = λ n. 0 } }

named :
    codec.from_slice (codec.to_vec (snapshot_of sing_box (json_object []) "v2"))
    ≡ some (snapshot_of sing_box (json_object []) "v2")
unfolding core_name
named = refl

load_last_configs-save_example :
    snapshot_in sing_box
      ((save_last_config codec sing_box (json_object []) "v2" >> load_last_configs codec)
        (calm agent)).0
    ≡ some (sing_box, snapshot_of sing_box (json_object []) "v2")
load_last_configs-save_example =
    load_last_configs-save codec sing_box (json_object []) "v2" (calm agent) (λ n. refl) named

abbrev old_agent : Agent
old_agent = record agent { legacy = some "v0"; snapshots = λ core. none }

spelled : parse_core "sing-box" ≡ some sing_box
unfolding parse_core
spelled = refl

load_last_configs-legacy_example :
    (((load_last_configs codec (failing 1 old_agent)).1.tables.legacy ≡ some "v0")
      × ((load_last_configs codec (failing 1 old_agent)).1.tables.snapshots sing_box ≡ none))
    ⊎ ((load_last_configs codec (failing 1 old_agent)).1.tables.snapshots sing_box ≡ some "v0")
load_last_configs-legacy_example =
    load_last_configs-legacy codec "v0"
      (record { core_type = "sing-box"; config = json_object []; version = "v0" }) sing_box none
      refl spelled (failing 1 old_agent) refl refl

abbrev push : Bool → String → ConfigPush
push restart_required version = record {
  config_json = "{}";
  target_core = 2;
  restart_required = restart_required;
  config_version = version;
  core_version = "";
  core_build_id = "";
}

abbrev parse : String → Option Value
parse s = if str_eq s "{}" then some (json_object []) else none

named_version : is_empty "v1" ≡ false
unfolding is_empty
named_version = refl

there : agent.snapshots (core_type_from_i32 2) ≡ some "v1"
unfolding core_type_from_i32
there = refl

handle_config_push-skips_example :
    ((handle_config_push downloads codec parse (push false "v1") (calm agent)).0 ≡ ok tt)
    × ((handle_config_push downloads codec parse (push false "v1") (calm agent)).1.tables.cores
        ≡ agent.cores)
handle_config_push-skips_example =
    handle_config_push-skips downloads codec parse (push false "v1") (json_object []) "v1"
      (record { core_type = "sing-box"; config = json_object []; version = "v1" }) (calm agent)
      (λ n. refl) refl named_version refl there refl refl

restarted : (handle_config_push downloads codec parse (push true "v1") (calm agent)).0 ≡ ok tt
unfolding handle_config_push core_type_from_i32 applied_already apply_push manager_for
    ensure_manager restart stop start start_from save_last_config step is_empty pure lift ◌>>=◌
restarted = refl

handle_config_push-RunsWith_example :
    ((handle_config_push downloads codec parse (push true "v1") (calm agent)).1.tables.cores
      (core_type_from_i32 2)).process
    ≡ some (json_object [])
handle_config_push-RunsWith_example =
    handle_config_push-RunsWith downloads codec parse (push true "v1") (json_object []) (calm agent)
      refl refl restarted

ensure_core_build-IsKept_example :
    IsKept downloads sing_box "2" "old"
      (failing 1 agent).env
      (ensure_core_build downloads sing_box "2" "b" (failing 1 agent)).1.tables
ensure_core_build-IsKept_example =
    ensure_core_build-IsKept downloads sing_box "2" "b" "old" (failing 1 agent) refl

abbrev os : Os
os = record { pid_file = some "7"; processes = record { pid = 7; exe = "/bin/other" } ∷ [] }

abbrev os_conn : Conn Os
os_conn = record {
  tables = os;
  asked = 0;
  env = record { fails = λ n. false; now = λ n. 0; uuid = λ n. 0 };
}

-- The PID has been given to another program since.
reap_stale-spares_example :
    In
      (record { pid = 7; exe = "/bin/other" })
      (reap_stale
        (λ s. some (record { pid = 7; exe = "/bin/core" }))
        some
        "/bin/core"
        os_conn).1.tables.processes
reap_stale-spares_example =
    reap_stale-spares (λ s. some (record { pid = 7; exe = "/bin/core" })) some "/bin/core"
      (record { pid = 7; exe = "/bin/other" }) refl os_conn refl (inl refl)
