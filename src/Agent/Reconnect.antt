-- ===== src/Agent/Reconnect.antt =====
-- The delays between connections: `AgentStreamClient::run` of crates/pp-agent/src/client.rs. Its loop
-- never ends; a run of it is the list of the connections' ends so far.
use multi_proxy_panel.Prelude.{ℕ, suc, ◌*◌, ◌^◌, ◌≤◌, min, ◌≡◌, refl, List, [], ◌∷◌, All, arith}
use multi_proxy_panel.Db.{Result, ok, err}

abbrev max_retry_delay : ℕ
max_retry_delay = 60

-- The seconds that are slept after each connection, and the delay that comes next.
unfoldable pub run_delays : ℕ → List (Result (Unit {0})) → List ℕ × ℕ
run_delays retry_delay [] = ([], retry_delay)
run_delays retry_delay (ok u ∷ ends) = run_delays 1 ends
run_delays retry_delay (err e ∷ ends) =
    let (slept, next) = run_delays (min (retry_delay * 2) max_retry_delay) ends in
    (retry_delay ∷ slept, next)

-- The loop from its beginning.
unfoldable pub run : List (Result (Unit {0})) → List ℕ
unfolding run_delays
run ends = (run_delays 1 ends).0

abbrev IsDelay : ℕ → Type 0
IsDelay d = (1 ≤ d) × (d ≤ 60)

run_delays-IsDelay :
    (d : ℕ) (ends : List (Result (Unit {0}))) → IsDelay d → All IsDelay (run_delays d ends).0
unfolding run_delays
run_delays-IsDelay d [] h = tt
run_delays-IsDelay d (ok u ∷ ends) h = run_delays-IsDelay 1 ends (omega arith, omega arith)
run_delays-IsDelay d (err e ∷ ends) h =
    (h, run_delays-IsDelay (min (d * 2) 60) ends (omega (arith, h.0, h.1), omega arith))

-- Every pause between two attempts lasts between one second and a minute.
pub run-IsDelay : (ends : List (Result (Unit {0}))) → All IsDelay (run ends)
unfolding run
run-IsDelay ends = run_delays-IsDelay 1 ends (omega arith, omega arith)

-- How many connections failed since the last one that was made.
abbrev pub failures : ℕ → List (Result (Unit {0})) → ℕ
failures n [] = n
failures n (ok u ∷ ends) = failures 0 ends
failures n (err e ∷ ends) = failures (suc n) ends

abbrev capped : ℕ → ℕ
capped n = min (2 ^ n) 60

doubled : (n : ℕ) → min (capped n * 2) 60 ≡ capped (suc n)
doubled n = omega arith

run_delays-capped :
    (n : ℕ) (ends : List (Result (Unit {0})))
    → (run_delays (capped n) ends).1 ≡ capped (failures n ends)
unfolding run_delays
run_delays-capped n [] = refl
run_delays-capped n (ok u ∷ ends) = run_delays-capped 0 ends
run_delays-capped n (err e ∷ ends) = rw (doubled n) (run_delays-capped (suc n) ends)

unfoldable pub next_delay : List (Result (Unit {0})) → ℕ
unfolding run_delays
next_delay ends = (run_delays 1 ends).1

-- After n failed connections in a row the next pause is 2 ^ n seconds, but at most a minute.
pub next_delay-failures :
    (ends : List (Result (Unit {0}))) → next_delay ends ≡ min (2 ^ failures 0 ends) 60
unfolding next_delay
next_delay-failures ends = run_delays-capped 0 ends
