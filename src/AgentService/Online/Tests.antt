-- ===== src/AgentService/Online/Tests.antt =====
-- Runs of a report of online users.
use multi_proxy_panel.Prelude.{pos, ◌≡◌, refl, List, [], ◌∷◌, some, All, ◌==◌, true, false≢true}
use multi_proxy_panel.Db.{Conn}
use multi_proxy_panel.Hub.{Hub, Client, active, on_hold}
use multi_proxy_panel.Hub.Samples.{calendar, sample_client, sample_hub, calm, connect}
use multi_proxy_panel.AgentService.{OnlineUser}
use multi_proxy_panel.AgentService.Online.{online_loop}
use multi_proxy_panel.AgentService.Online.Activation.{online_loop-leaves}

abbrev rows : List Client
rows = sample_client 1 active 500 60 ∷ sample_client 2 on_hold 500 60 ∷ []

abbrev start : Conn Hub
start = connect (calm 7) (sample_hub rows)

abbrev users : List OnlineUser
users =
    record { client_id = "1"; ip_address = "10.0.0.1"; inbound_tag = "" }
    ∷ record { client_id = "2"; ip_address = "10.0.0.2"; inbound_tag = "" }
    ∷ []

online_loop-leaves_example :
    All
      (λ r. (r.id == 1) ≡ true → (r.status ≡ active) × (r.expiry_date ≡ some 900000))
      (online_loop calendar 9 7
        (pos 7)
        []
        rows
        (("1", 1) ∷ ("2", 2) ∷ [])
        users
        []
        []
        start).1.tables.clients
online_loop-leaves_example =
    online_loop-leaves 1 active (some 900000) calendar 9 7 (pos 7) [] rows refl
      (("1", 1) ∷ ("2", 2) ∷ []) users start
      ((λ e. (refl, refl)), ((λ e. absurd (false≢true e)), tt))
