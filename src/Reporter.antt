-- ===== src/Reporter.antt =====
-- The traffic samples of sing-box on the Agent: total_delta, connection_snapshot and user_deltas of
-- crates/pp-agent/src/reporter.rs.
mod Tests
use multi_proxy_panel.Prelude.{
  ℕ, ℤ, pos, negsuc, ◌+◌, ◌-◌, ◌≤◌, ◌<◌, ◌≡◌, refl, sym, ap, ◌∙◌, String, str_eq, Bool, true, false,
  ◌&&◌, ◌==◌, List, [], ◌∷◌, Option, none, some, find, retain, map, not, leb, arith, if◌then◌else◌,
}
use multi_proxy_panel.Prelude.Int.{
  ◌+ℤ◌, add_i64, saturating_sub, max_ℤ, ◌-ℤ◌, leb_ℤ, i64_half, pos_part, neg_part, InI64, int_laws,
}

-- Uploaded and downloaded bytes, each an `i64`.
abbrev pub Bytes : Type 0
Bytes = ℤ × ℤ

-- `cur.saturating_sub(prev).max(0)`
unfoldable pub grown : ℤ → ℤ → ℤ
grown prev cur = max_ℤ (saturating_sub cur prev) (pos 0)

unfoldable pub total_delta : Option Bytes → Bytes → Bytes
unfolding grown
total_delta none cur = cur
total_delta (some prev) cur = (grown prev.0 cur.0, grown prev.1 cur.1)

pub record Connection : Type 0 where
  pub id : String
  pub user : String
  pub uplink_total : ℤ
  pub downlink_total : ℤ

-- `closed` is the event type 2.
pub record ConnectionEvent : Type 0 where
  pub closed : Bool
  pub connection : Option Connection

-- The last event of a connection comes first.
abbrev pub Snapshot : Type 0
Snapshot = List (String × (String × Bytes))

abbrev add_connection : Option Connection → Snapshot → Snapshot
add_connection none s = s
add_connection (some c) s =
    if str_eq c.user ""
    then s
    else (c.id, (c.user, (c.uplink_total, c.downlink_total)))
      ∷ retain (λ e. not (str_eq e.0 c.id)) s

unfoldable pub snapshot_from : List ConnectionEvent → Snapshot → Snapshot
snapshot_from [] s = s
snapshot_from (e ∷ es) s =
    if e.closed then snapshot_from es s else snapshot_from es (add_connection e.connection s)

unfoldable pub connection_snapshot : List ConnectionEvent → Snapshot
connection_snapshot events = snapshot_from events []

unfoldable pub connection_delta : Option (String × (String × Bytes)) → Bytes → Bytes
unfolding grown
connection_delta none cur = cur
connection_delta (some prev) cur = (grown prev.1.1.0 cur.0, grown prev.1.1.1 cur.1)

abbrev is_zero : ℤ → Bool
is_zero (pos n) = n == 0
is_zero (negsuc n) = false

-- The entry of the user is added to, or made.
unfoldable pub add_to_user : String → Bytes → List (String × Bytes) → List (String × Bytes)
add_to_user user d [] = (user, d) ∷ []
add_to_user user d ((u, n) ∷ us) =
    if str_eq u user
    then (u, (add_i64 n.0 d.0, add_i64 n.1 d.1)) ∷ us
    else (u, n) ∷ add_to_user user d us

unfoldable pub deltas_from : Snapshot → Snapshot → List (String × Bytes) → List (String × Bytes)
unfolding add_to_user connection_delta
deltas_from prev [] users = users
deltas_from prev ((id, (user, cur)) ∷ s) users =
    let d = connection_delta (find (λ e. str_eq e.0 id) prev) cur in
    if is_zero d.0 && is_zero d.1
    then deltas_from prev s users
    else deltas_from prev s (add_to_user user d users)

unfoldable pub user_deltas : Snapshot → Snapshot → List (String × Bytes)
user_deltas prev snapshot = deltas_from prev snapshot []

-- The deltas of a series of samples, each against the one before.
unfoldable pub sample_totals : Option Bytes → List Bytes → List Bytes
unfolding total_delta
sample_totals prev [] = []
sample_totals prev (cur ∷ samples) = total_delta prev cur ∷ sample_totals (some cur) samples

unfoldable pub sum_of : (Bytes → ℤ) → List Bytes → ℤ
sum_of g [] = pos 0
sum_of g (d ∷ ds) = g d +ℤ sum_of g ds

abbrev pub counters : ℕ × ℕ → Bytes
counters n = (pos n.0, pos n.1)

-- Counters that do not fall, and fit an `i64`.
abbrev pub Rising : ℕ × ℕ → List (ℕ × ℕ) → Type 0
Rising n [] = (n.0 < i64_half) × (n.1 < i64_half)
Rising n (k ∷ ks) = ((n.0 ≤ k.0) × (n.1 ≤ k.1)) × Rising k ks

abbrev pub last_of : ℕ × ℕ → List (ℕ × ℕ) → ℕ × ℕ
last_of n [] = n
last_of n (k ∷ ks) = last_of k ks

Rising-fits : (n : ℕ × ℕ) (ks : List (ℕ × ℕ)) → Rising n ks → (n.0 < i64_half) × (n.1 < i64_half)
Rising-fits n [] h = h
Rising-fits n (k ∷ ks) h = let r = Rising-fits k ks h.1 in ground arith

grown_exact : (a b : ℕ) → a ≤ b → b < i64_half → grown (pos a) (pos b) ≡ pos (b - a)
unfolding grown saturating_sub ◌-ℤ◌
grown_exact a b le lt = ground arith

step_sum : (a b l : ℕ) (s : ℤ) → a ≤ b → s +ℤ pos b ≡ pos l → (pos (b - a) +ℤ s) +ℤ pos a ≡ pos l
unfolding ◌+ℤ◌
step_sum a b l s le e = ground arith

zero_sum : (n : ℕ) → pos 0 +ℤ pos n ≡ pos n
unfolding ◌+ℤ◌
zero_sum n = ground arith

uploads :
    (n : ℕ × ℕ) (ks : List (ℕ × ℕ))
    → Rising n ks
    → sum_of (λ d. d.0) (sample_totals (some (counters n)) (map counters ks)) +ℤ pos n.0
      ≡ pos (last_of n ks).0
unfolding sum_of sample_totals total_delta
uploads n [] h = zero_sum n.0
uploads n (k ∷ ks) h =
    let r = Rising-fits k ks h.1 in
    ap
      (λ g.
        (g +ℤ sum_of (λ d. d.0) (sample_totals (some (counters k)) (map counters ks))) +ℤ pos n.0)
      (grown_exact n.0 k.0 h.0.0 r.0)
    ∙ step_sum n.0 k.0 (last_of k ks).0 _ h.0.0 (uploads k ks h.1)

downloads :
    (n : ℕ × ℕ) (ks : List (ℕ × ℕ))
    → Rising n ks
    → sum_of (λ d. d.1) (sample_totals (some (counters n)) (map counters ks)) +ℤ pos n.1
      ≡ pos (last_of n ks).1
unfolding sum_of sample_totals total_delta
downloads n [] h = zero_sum n.1
downloads n (k ∷ ks) h =
    let r = Rising-fits k ks h.1 in
    ap
      (λ g.
        (g +ℤ sum_of (λ d. d.1) (sample_totals (some (counters k)) (map counters ks))) +ℤ pos n.1)
      (grown_exact n.1 k.1 h.0.1 r.1)
    ∙ step_sum n.1 k.1 (last_of k ks).1 _ h.0.1 (downloads k ks h.1)

add_comm_ℤ : (a b : ℤ) → a +ℤ b ≡ b +ℤ a
add_comm_ℤ a b = omega int_laws

-- The deltas that are reported for counters that do not fall and fit an `i64`, from the first sample
-- on, add up to the last counters: nothing is lost or counted twice.
pub sample_totals-sum :
    (n : ℕ × ℕ) (ks : List (ℕ × ℕ))
    → Rising n ks
    → (sum_of (λ d. d.0) (sample_totals none (map counters (n ∷ ks))) ≡ pos (last_of n ks).0)
      × (sum_of (λ d. d.1) (sample_totals none (map counters (n ∷ ks))) ≡ pos (last_of n ks).1)
unfolding sum_of sample_totals total_delta
sample_totals-sum n ks h =
    (add_comm_ℤ (pos n.0) _ ∙ uploads n ks h, add_comm_ℤ (pos n.1) _ ∙ downloads n ks h)
