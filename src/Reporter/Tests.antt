-- ===== src/Reporter/Tests.antt =====
-- Runs of the traffic samples.
use multi_proxy_panel.Prelude.{ℕ, pos, ◌≡◌, refl, false, [], ◌∷◌, none, some, map, arith}
use multi_proxy_panel.Prelude.Int.{saturating_sub, ◌-ℤ◌}
use multi_proxy_panel.Reporter.{
  grown, total_delta, ConnectionEvent, snapshot_from, connection_snapshot, connection_delta,
  add_to_user, deltas_from, user_deltas, sample_totals, sum_of, counters, sample_totals-sum,
}

-- A counter that has fallen counts as no traffic.
restart_run : total_delta (some (pos 9, pos 9)) (pos 3, pos 12) ≡ (pos 0, pos 3)
unfolding total_delta grown saturating_sub ◌-ℤ◌
restart_run = refl

abbrev connection : ℕ → ConnectionEvent
connection n = record {
  closed = false;
  connection = some (record { id = "c"; user = "u"; uplink_total = pos n; downlink_total = pos 0 });
}

users_run :
    user_deltas
      (connection_snapshot (connection 5 ∷ []))
      (connection_snapshot (connection 6 ∷ connection 8 ∷ []))
    ≡ ("u", (pos 3, pos 0)) ∷ []
unfolding user_deltas deltas_from connection_delta add_to_user connection_snapshot snapshot_from
    grown saturating_sub ◌-ℤ◌
users_run = refl

sample_totals-sum_example :
    (sum_of (λ d. d.0) (sample_totals none (map counters ((5, 1) ∷ (8, 1) ∷ []))) ≡ pos 8)
    × (sum_of (λ d. d.1) (sample_totals none (map counters ((5, 1) ∷ (8, 1) ∷ []))) ≡ pos 1)
sample_totals-sum_example =
    sample_totals-sum (5, 1) ((8, 1) ∷ []) ((omega arith, omega arith), (omega arith, omega arith))
