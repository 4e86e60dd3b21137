-- ===== src/Bench/Best.antt =====
-- What the loops leave in the cell (runWorker of cmd/acp-adaptive-bench/main.go).
use acp_kv.Prelude.{
  All, Bool, List, [], arith, false, inl, inr, refl, suc, true, zero, ℕ, ℤ, ◌∷◌, ◌≡◌, ◌≤ℤ◌, ◌⊎◌,
  eqb_ℤ, Bool-cases, sym, subst, ◌∙◌, eq_of_parts,
}
use acp_kv.Bench.Cell.{
  Phase, Worker, advance, advance_at, finished, keeps_max, keeps_min, loading, next_phase,
  run_schedule, swapping,
}

-- What a test of the loop decides: an order in which it keeps a cell that is at least as good.
pub record Order (keeps : ℤ → ℤ → Bool) : Type 1 where
  pub Good : ℤ → ℤ → Type 0
  pub kept : (l c : ℤ) → keeps l c ≡ true → Good c l
  pub beaten : (l c : ℤ) → keeps l c ≡ false → Good l c
  pub Good_refl : (c : ℤ) → Good c c
  pub Good_trans : (a b c : ℤ) → Good a b → Good b c → Good a c

pub min_order : Order keeps_min
min_order = record {
  Good = λ c l. c ≤ℤ l;
  kept = λ l c e. ground arith;
  beaten = λ l c e. ground arith;
  Good_refl = λ c. omega arith;
  Good_trans = λ a b c p q. omega arith;
}

pub max_order : Order keeps_max
max_order = record {
  Good = λ c l. l ≤ℤ c;
  kept = λ l c e. ground arith;
  beaten = λ l c e. ground arith;
  Good_refl = λ c. omega arith;
  Good_trans = λ a b c p q. omega arith;
}

-- The cell is the latency of one of the workers.
abbrev pub IsLatency : ℤ → List Worker → Type 0
IsLatency c [] = ⊥
IsLatency c (w ∷ ws) = (c ≡ w.latency_ns) ⊎ IsLatency c ws

module _ (keeps : ℤ → ℤ → Bool) (order : Order keeps) where
  open order use {Good, kept, beaten, Good_refl, Good_trans}

  -- A worker that has finished left a cell at least as good as its latency; one that is about to swap has
  -- a latency at least as good as what it loaded.
  abbrev pub PhaseHolds : ℤ → ℤ → Phase → Type 0
  PhaseHolds cell l loading = Unit
  PhaseHolds cell l (swapping current) = Good l current
  PhaseHolds cell l finished = Good cell l

  abbrev pub Holds : ℤ → Worker → Type 0
  Holds cell w = PhaseHolds cell w.latency_ns w.phase

  next_phase-Holds :
      (cell l : ℤ) (p : Phase)
      → PhaseHolds cell l p
      → let (cell', p') = next_phase keeps cell l p in
        Good cell' cell × PhaseHolds cell' l p' × ((cell' ≡ cell) ⊎ (cell' ≡ l))
  unfolding next_phase
  next_phase-Holds cell l loading h = elim (Bool-cases (keeps l cell)) [
    | inl keep ↦ rw keep (Good_refl cell, kept l cell keep, inl refl)
    | inr beat ↦ rw beat (Good_refl cell, beaten l cell beat, inl refl)
  ]
  next_phase-Holds cell l (swapping current) h = elim (Bool-cases (eqb_ℤ cell current)) [
    | inl same ↦
        rw same
          (subst (λ c. Good l c) (eq_of_parts current cell (ground arith)) h, Good_refl l, inr refl)
    | inr other ↦ rw other (Good_refl cell, tt, inl refl)
  ]
  next_phase-Holds cell l finished h = (Good_refl cell, h, inl refl)

  PhaseHolds-better : (c c' l : ℤ) (p : Phase) → Good c' c → PhaseHolds c l p → PhaseHolds c' l p
  PhaseHolds-better c c' l loading better h = tt
  PhaseHolds-better c c' l (swapping current) better h = h
  PhaseHolds-better c c' l finished better h = Good_trans c' c l better h

  All-better : (c c' : ℤ) (ws : List Worker) → Good c' c → All (Holds c) ws → All (Holds c') ws
  All-better c c' [] better h = tt
  All-better c c' (w ∷ ws) better (h, hs) =
      (PhaseHolds-better c c' w.latency_ns w.phase better h, All-better c c' ws better hs)

  advance_at-Holds :
      (i : ℕ) (cell : ℤ) (ws : List Worker)
      → All (Holds cell) ws
      → let (cell', ws') = advance_at keeps i (cell, ws) in
        Good cell' cell
        × All (Holds cell') ws'
        × ((cell' ≡ cell) ⊎ IsLatency cell' ws)
        × ((c : ℤ) → IsLatency c ws' → IsLatency c ws)
  unfolding advance_at advance
  advance_at-Holds i cell [] h = (Good_refl cell, tt, inl refl, λ c x. x)
  advance_at-Holds zero cell (w ∷ ws) (h, hs) =
      let (better, holds, which) = next_phase-Holds cell w.latency_ns w.phase h in
      (
        better,
        (holds, All-better cell (advance keeps cell w).0 ws better hs),
        elim which [ inl e ↦ inl e | inr e ↦ inr (inl e) ],
        λ c x. x,
      )
  advance_at-Holds (suc i) cell (w ∷ ws) (h, hs) =
      let (better, hs', which, same) = advance_at-Holds i cell ws hs in
      (
        better,
        (
          PhaseHolds-better cell (advance_at keeps i (cell, ws)).0 w.latency_ns w.phase better h,
          hs',
        ),
        elim which [ inl e ↦ inl e | inr m ↦ inr (inr m) ],
        λ c x. elim x [ inl e ↦ inl e | inr m ↦ inr (same c m) ],
      )

  run_schedule-Holds :
      (is : List ℕ) (start : ℤ) (ws : List Worker)
      → All (Holds start) ws
      → let (cell, ws') = run_schedule keeps is (start, ws) in
        Good cell start × All (Holds cell) ws' × ((cell ≡ start) ⊎ IsLatency cell ws)
  unfolding run_schedule
  run_schedule-Holds [] start ws h = (Good_refl start, h, inl refl)
  run_schedule-Holds (i ∷ is) start ws h =
      let (better, holds, which, same) = advance_at-Holds i start ws h in
      let (c1, ws1) = advance_at keeps i (start, ws) in
      let (better', holds', which') = run_schedule-Holds is c1 ws1 holds in
      (
        Good_trans (run_schedule keeps is (c1, ws1)).0 c1 start better' better,
        holds',
        elim which' [
          | inl e ↦ elim which [
            | inl e' ↦ inl (e ∙ e')
            | inr m ↦ inr (subst (λ c. IsLatency c ws) (sym e) m)
          ]
          | inr m ↦ inr (same (run_schedule keeps is (c1, ws1)).0 m)
        ],
      )

  All-loading : (c : ℤ) (ws : List Worker) → All (λ w. w.phase ≡ loading) ws → All (Holds c) ws
  All-loading c [] h = tt
  All-loading c (w ∷ ws) (e, h) = (subst (PhaseHolds c w.latency_ns) (sym e) tt, All-loading c ws h)

  abbrev pub IsBest : ℤ → ℤ × List Worker → List Worker → Type 0
  IsBest start (cell, later) ws =
      Good cell start
      × All (λ w. w.phase ≡ finished → Good cell w.latency_ns) later
      × ((cell ≡ start) ⊎ IsLatency cell ws)

  All-finished :
      (c : ℤ) (ws : List Worker)
      → All (Holds c) ws
      → All (λ w. w.phase ≡ finished → Good c w.latency_ns) ws
  All-finished c [] h = tt
  All-finished c (w ∷ ws) (h, hs) =
      (λ e. subst (PhaseHolds c w.latency_ns) e h, All-finished c ws hs)

  run_schedule-IsBest :
      (is : List ℕ) (start : ℤ) (ws : List Worker)
      → All (λ w. w.phase ≡ loading) ws
      → IsBest start (run_schedule keeps is (start, ws)) ws
  run_schedule-IsBest is start ws h =
      let (better, holds, which) = run_schedule-Holds is start ws (All-loading start ws h) in
      let (cell, ws') = run_schedule keeps is (start, ws) in
      (better, All-finished cell ws' holds, which)

-- However the workers' loads and compare-and-swaps interleave, the least latency is at most what it was
-- at the start and at most the latency of every worker that is past its loop, and is one of these
-- workers' latencies or what it was; and the greatest latency likewise from above.
pub run_schedule-extremes :
    (is : List ℕ) (start : ℤ) (ws : List Worker)
    → All (λ w. w.phase ≡ loading) ws
    → IsBest keeps_min min_order start (run_schedule keeps_min is (start, ws)) ws
      × IsBest keeps_max max_order start (run_schedule keeps_max is (start, ws)) ws
run_schedule-extremes is start ws h = (
  run_schedule-IsBest keeps_min min_order is start ws h,
  run_schedule-IsBest keeps_max max_order is start ws h,
)
