-- ===== src/Prelude/Turns.antt =====
-- Taking turns: counting on from any number, a remainder comes up within one round.
use native.Mathlib.Nat.{add-mod_left, mod-add-mod, mod-eq_of_lt, mod-lt}
use acp_kv.Prelude.{arith, sym, ◌+◌, ◌-◌, ◌%◌, ◌<◌, ◌≡◌, ◌∙◌, ℕ, ap, inl, inr, ◌≤◌, ◌⊎◌}

le_or_lt : (a b : ℕ) → (a ≤ b) ⊎ (b < a)
le_or_lt a b = ground arith

-- The number of calls after which the turn is at `j`.
pub turn : (i n j : ℕ) → j < n → (k : ℕ) × (k < n) × ((i + k) % n ≡ j)
turn i n j h =
    let below : i % n < n = mod-lt i {m = n} (omega arith) in
    elim (le_or_lt (i % n) j) [
      | inl ahead ↦ (
        j - i % n,
        omega (arith, ahead),
        sym (mod-add-mod i n (j - i % n)) ∙ ap (λ a. a % n) (omega (arith, ahead)) ∙ mod-eq_of_lt h,
      )
      | inr past ↦ (
        n - i % n + j,
        omega (arith, past, below),
        sym (mod-add-mod i n (n - i % n + j))
            ∙ ap (λ a. a % n) (omega (arith, past, below))
            ∙ add-mod_left n j
            ∙ mod-eq_of_lt h,
      )
    ]
