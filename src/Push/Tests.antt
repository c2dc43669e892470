-- ===== src/Push/Tests.antt =====
-- Runs of pushes.
use multi_proxy_panel.Prelude.{refl, true, [], ◌∷◌}
use multi_proxy_panel.Db.{Conn}
use multi_proxy_panel.Hub.{Hub, AgentConnection, core_stop}
use multi_proxy_panel.Hub.Samples.{sample_hub, calm, connect}
use multi_proxy_panel.Protocol.{mihomo, core_name}
use multi_proxy_panel.Push.{Formats}
use multi_proxy_panel.Push.Orphans.{passes, Connected, passes-Connected}

abbrev formats : Formats
formats = record { serialize = λ c. "{}"; digest = λ t. t; unix_text = λ t. "0" }

abbrev agent : AgentConnection
agent = record {
  agent_id = 9;
  open_channel = true;
  config_versions = ("mihomo", "v1") ∷ [];
  sent = [];
}

abbrev start : Conn Hub
start = connect (calm 7) (record (sample_hub []) { agents = agent ∷ [] })

passes-Connected_example :
    Connected 9 mihomo (core_stop mihomo ∷ core_stop mihomo ∷ []) (passes 9 mihomo 2 start).tables
passes-Connected_example =
    passes-Connected 9 mihomo 2 [] start (agent, refl, refl, (unfold core_name in refl), refl)
