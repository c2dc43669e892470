-- ===== src/AgentService/Traffic/Tests.antt =====
-- Runs of a traffic report.
use multi_proxy_panel.Prelude.{ℕ, String, pos, ◌≡◌, refl, true, List, [], ◌∷◌, All, ◌==◌}
use multi_proxy_panel.Db.{ok}
use multi_proxy_panel.Hub.{Client, active, on_hold}
use multi_proxy_panel.Hub.Samples.{sample_client, sample_hub, calm, connect}
use multi_proxy_panel.AgentService.{UserTraffic}
use multi_proxy_panel.AgentService.Traffic.{count_users}
use multi_proxy_panel.AgentService.Traffic.Counting.{count_users-last, added}

abbrev rows : List Client
rows = sample_client 1 active 500 60 ∷ sample_client 2 on_hold 500 60 ∷ []

abbrev entry : String → ℕ → UserTraffic
entry raw n = record { client_id = raw; upload_bytes = pos n; download_bytes = pos 1 }

-- Two entries for client 1, by its id and by its email.
abbrev entries : List UserTraffic
entries = entry "1" 100 ∷ entry "a@example.com" 10 ∷ []

abbrev names : List (String × ℕ)
names = ("1", 1) ∷ ("a@example.com", 1) ∷ []

count_users-last_example :
    ((count_users (λ b r. b) 9 0 0 rows names entries (connect (calm 7) (sample_hub rows))).0
      ≡ ok tt)
    × All
        (λ r.
          (r.id == 1) ≡ true
          → r.traffic_used_bytes
            ≡ added
                (λ b r. b)
                9
                0
                0
                rows
                names
                (sample_client 1 active 500 60)
                (entry "a@example.com" 10))
        (count_users
          (λ b r. b)
          9
          0
          0
          rows
          names
          entries
          (connect (calm 7) (sample_hub rows))).1.tables.clients
count_users-last_example =
    count_users-last (λ b r. b) 9 0 0 rows names (sample_client 1 active 500 60) refl refl entries
      (pos 60) (connect (calm 7) (sample_hub rows)) (λ n. refl) ((λ e. refl), ((λ e. refl), tt))
