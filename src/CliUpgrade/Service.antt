-- ===== src/CliUpgrade/Service.antt =====
-- The wait for a unit after its restart: `systemd_wait_stable` of crates/pp-cli/src/ops/systemd.rs.
-- The answers of `systemctl is-active` are an argument, by the number of the check.
use multi_proxy_panel.Prelude.{
  ℕ, zero, suc, ◌≡◌, refl, Bool, true, false, ◌&&◌, ◌||◌, List, [], ◌∷◌, ◌==◌, arith,
}

module _ (is_active : ℕ → Bool) where
  -- The rounds that are left, the number of the check, and the active checks in a row before it.
  unfoldable pub wait_rounds : ℕ → ℕ → ℕ → Bool
  wait_rounds zero i stable_checks = false
  wait_rounds (suc rounds) i stable_checks = elim (is_active i) [
    | true ↦ elim (suc stable_checks == 3) [
      | true ↦ true
      | false ↦ wait_rounds rounds (suc i) (suc stable_checks)
    ]
    | false ↦ wait_rounds rounds (suc i) 0
  ]

  unfoldable pub systemd_wait_stable : Bool
  unfolding wait_rounds
  systemd_wait_stable = wait_rounds 30 0 0

  -- The answers of so many checks from this one on.
  abbrev pub answers : ℕ → ℕ → List Bool
  answers zero i = []
  answers (suc rounds) i = is_active i ∷ answers rounds (suc i)

-- Three in a row are active.
abbrev pub three_in_a_row : List Bool → Bool
three_in_a_row (a ∷ b ∷ c ∷ rest) = a && b && c || three_in_a_row (b ∷ c ∷ rest)
three_in_a_row _ = false

after_false : (xs : List Bool) → three_in_a_row (false ∷ xs) ≡ three_in_a_row xs
after_false [] = refl
after_false (a ∷ []) = refl
after_false (a ∷ b ∷ xs) = refl

after_true-false : (xs : List Bool) → three_in_a_row (true ∷ false ∷ xs) ≡ three_in_a_row xs
after_true-false [] = refl
after_true-false (a ∷ xs) = after_false (a ∷ xs)

after_two_false : (xs : List Bool) → three_in_a_row (true ∷ true ∷ false ∷ xs) ≡ three_in_a_row xs
after_two_false xs = after_true-false xs

module _ (is_active : ℕ → Bool) where
  mutual
    unfolding wait_rounds

    from_none :
        (rounds i : ℕ)
        → wait_rounds is_active rounds i 0 ≡ three_in_a_row (answers is_active rounds i)
    from_none zero i = refl
    from_none (suc rounds) i = ground (
      arith,
      from_one rounds (suc i),
      from_none rounds (suc i),
      after_false (answers is_active rounds (suc i)),
    )

    from_one :
        (rounds i : ℕ)
        → wait_rounds is_active rounds i 1 ≡ three_in_a_row (true ∷ answers is_active rounds i)
    from_one zero i = refl
    from_one (suc rounds) i = ground (
      arith,
      from_two rounds (suc i),
      from_none rounds (suc i),
      after_true-false (answers is_active rounds (suc i)),
    )

    from_two :
        (rounds i : ℕ)
        → wait_rounds is_active rounds i 2
          ≡ three_in_a_row (true ∷ true ∷ answers is_active rounds i)
    from_two zero i = refl
    from_two (suc rounds) i =
        ground (arith, from_none rounds (suc i), after_two_false (answers is_active rounds (suc i)))

  -- The wait ends after 30 checks at most, and succeeds exactly where three of them in a row find the
  -- unit active.
  pub systemd_wait_stable-three_in_a_row :
      systemd_wait_stable is_active ≡ three_in_a_row (answers is_active 30 0)
  unfolding systemd_wait_stable
  systemd_wait_stable-three_in_a_row = from_none 30 0
