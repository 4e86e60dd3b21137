-- ===== src/Bench/Ends.antt =====
-- The loops end: no schedule keeps the workers busy for long (runWorker of
-- cmd/acp-adaptive-bench/main.go).
use native.Mathlib.Nat.{mul-suc}
use acp_kv.Prelude.{
  All, Bool, Bool-cases, List, [], arith, eqb_ℤ, if◌then◌else◌, inl, inr, length, refl, suc, zero,
  ℕ, ℤ, ◌*◌, ◌+◌, ◌<◌, ◌∷◌, ◌≡◌, ◌≢◌, ◌≤◌, ◌⊎◌, subst, ap,
}
use acp_kv.Bench.Cell.{Phase, Worker, advance, advance_at, finished, loading, next_phase, swapping}

-- What a worker still has to do, where the cell is `cell`; each worker counts for `k` as well.
abbrev work : ℕ → ℤ → Phase → ℕ
work k cell loading = k + 2
work k cell (swapping current) = if eqb_ℤ cell current then k + 1 else k + 3
work k cell finished = 0

abbrev work_of : ℕ → ℤ → List Worker → ℕ
work_of k cell [] = 0
work_of k cell (w ∷ ws) = work k cell w.phase + work_of k cell ws

-- The worker at the position is not past the loop.
abbrev IsBusyAt : ℕ → List Worker → Type 0
IsBusyAt i [] = ⊥
IsBusyAt zero (w ∷ ws) = w.phase ≢ finished
IsBusyAt (suc i) (w ∷ ws) = IsBusyAt i ws

-- Every step of the schedule is one of a worker that is not past the loop.
abbrev pub IsBusy : (ℤ → ℤ → Bool) → List ℕ → ℤ × List Worker → Type 0
IsBusy keeps [] s = Unit
IsBusy keeps (i ∷ is) s = IsBusyAt i s.1 × IsBusy keeps is (advance_at keeps i s)

-- A step leaves the cell alone and is work done, or ends the loop of its worker.
next_phase-work :
    (keeps : ℤ → ℤ → Bool) (k : ℕ) (cell l : ℤ) (p : Phase)
    → p ≢ finished
    → let (cell', p') = next_phase keeps cell l p in
      ((cell' ≡ cell) × (work k cell p' < work k cell p)) ⊎ (work k cell' p' + k < work k cell p)
unfolding next_phase
next_phase-work keeps k cell l loading busy = elim (Bool-cases (keeps l cell)) [
  | inl keep ↦ rw keep (inl (refl, omega arith))
  | inr beat ↦ rw beat (inl (refl, ground arith))
]
next_phase-work keeps k cell l (swapping current) busy = elim (Bool-cases (eqb_ℤ cell current)) [
  | inl same ↦ rw same (inr (omega arith))
  | inr other ↦ rw other (inl (refl, omega arith))
]
next_phase-work keeps k cell l finished busy = absurd (busy refl)

-- A new value of the cell makes a loaded one stale.
work-cell : (k : ℕ) (c c' : ℤ) (p : Phase) → work k c' p ≤ work k c p + 2
work-cell k c c' loading = omega arith
work-cell k c c' (swapping current) = ground arith
work-cell k c c' finished = omega arith

work_of-cell :
    (k : ℕ) (c c' : ℤ) (ws : List Worker) → work_of k c' ws ≤ work_of k c ws + 2 * length ws
work_of-cell k c c' [] = omega arith
work_of-cell k c c' (w ∷ ws) = omega (arith, work-cell k c c' w.phase, work_of-cell k c c' ws)

length-advance_at :
    (keeps : ℤ → ℤ → Bool) (i : ℕ) (cell : ℤ) (ws : List Worker)
    → length (advance_at keeps i (cell, ws)).1 ≡ length ws
unfolding advance_at
length-advance_at keeps i cell [] = refl
length-advance_at keeps zero cell (w ∷ ws) = refl
length-advance_at keeps (suc i) cell (w ∷ ws) = ap suc (length-advance_at keeps i cell ws)

advance_at-work :
    (keeps : ℤ → ℤ → Bool) (k i : ℕ) (cell : ℤ) (ws : List Worker)
    → IsBusyAt i ws
    → let (cell', ws') = advance_at keeps i (cell, ws) in
      ((cell' ≡ cell) × (work_of k cell ws' < work_of k cell ws))
      ⊎ (work_of k cell' ws' + k < work_of k cell ws + 2 * length ws)
unfolding advance_at advance
advance_at-work keeps k i cell [] busy = absurd busy
advance_at-work keeps k zero cell (w ∷ ws) busy =
    elim (next_phase-work keeps k cell w.latency_ns w.phase busy) [
      | inl (same, less) ↦ inl (same, omega (arith, less))
      | inr less ↦ inr (omega (arith, less, work_of-cell k cell (advance keeps cell w).0 ws))
    ]
advance_at-work keeps k (suc i) cell (w ∷ ws) busy = elim (advance_at-work keeps k i cell ws busy) [
  | inl (same, less) ↦ inl (same, omega (arith, less))
  | inr less ↦ inr (omega (arith, less, work-cell k cell (advance_at keeps i (cell, ws)).0 w.phase))
]

run_schedule-work :
    (keeps : ℤ → ℤ → Bool) (k : ℕ) (is : List ℕ) (cell : ℤ) (ws : List Worker)
    → 2 * length ws ≤ k
    → IsBusy keeps is (cell, ws)
    → length is ≤ work_of k cell ws
run_schedule-work keeps k [] cell ws few busy = omega arith
run_schedule-work keeps k (i ∷ is) cell ws few (now, later) =
    let (c', ws') = advance_at keeps i (cell, ws) in
    let few' : 2 * length ws' ≤ k = omega (arith, few, length-advance_at keeps i cell ws) in
    let rest = run_schedule-work keeps k is c' ws' few' later in
    elim (advance_at-work keeps k i cell ws now) [
      | inl (same, less) ↦ omega (arith, subst (λ c. length is ≤ work_of k c ws') same rest, less)
      | inr less ↦ omega (arith, rest, less, few)
    ]

work_of-loading :
    (k : ℕ) (cell : ℤ) (ws : List Worker)
    → All (λ w. w.phase ≡ loading) ws
    → work_of k cell ws ≡ (k + 2) * length ws
work_of-loading k cell [] h = omega arith
work_of-loading k cell (w ∷ ws) (e, h) =
    omega (arith, mul-suc (k + 2) (length ws), work_of-loading k cell ws h, ap (work k cell) e)

-- However the loads and compare-and-swaps of n workers interleave, their loops end within 2 n (n + 1)
-- steps of workers that are in the loop, whatever the test of the loop.
pub run_schedule_ends :
    (keeps : ℤ → ℤ → Bool) (is : List ℕ) (start : ℤ) (ws : List Worker)
    → All (λ w. w.phase ≡ loading) ws
    → IsBusy keeps is (start, ws)
    → length is ≤ (2 * length ws + 2) * length ws
run_schedule_ends keeps is start ws h busy =
    subst (λ m. length is ≤ m) (work_of-loading (2 * length ws) start ws h)
      (run_schedule-work keeps (2 * length ws) is start ws (omega arith) busy)
