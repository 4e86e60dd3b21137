-- ===== src/Bench/Cell.antt =====
-- cmd/acp-adaptive-bench/main.go: the loops of `runWorker` that lower the least latency and raise the
-- greatest one, which the workers run at the same time. A load and a compare-and-swap are one step each.
use acp_kv.Prelude.{Bool, List, [], eqb_ℤ, if◌then◌else◌, suc, zero, ℕ, ℤ, ◌∷◌, leb_ℤ}

-- Where a worker is in the loop: before the load, before the compare-and-swap of what it loaded, or past it.
pub data Phase : Type 0 where
  loading : Phase
  swapping : ℤ → Phase
  finished : Phase

pub record Worker : Type 0 where
  pub latency_ns : ℤ
  pub phase : Phase

-- A latency leaves the least one alone where `latencyNs >= current`, and the greatest one where
-- `latencyNs <= current`.
abbrev pub keeps_min : ℤ → ℤ → Bool
keeps_min latency_ns current = leb_ℤ current latency_ns

abbrev pub keeps_max : ℤ → ℤ → Bool
keeps_max latency_ns current = leb_ℤ latency_ns current

-- The next step of a worker with a latency: the cell and the worker's phase after it.
unfoldable pub next_phase : (ℤ → ℤ → Bool) → ℤ → ℤ → Phase → ℤ × Phase
next_phase keeps cell latency_ns loading =
    if keeps latency_ns cell then (cell, finished) else (cell, swapping cell)
next_phase keeps cell latency_ns (swapping current) =
    if eqb_ℤ cell current then (latency_ns, finished) else (cell, loading)
next_phase keeps cell latency_ns finished = (cell, finished)

unfoldable pub advance : (ℤ → ℤ → Bool) → ℤ → Worker → ℤ × Worker
unfolding next_phase
advance keeps cell w =
    let (cell', phase) = next_phase keeps cell w.latency_ns w.phase in
    (cell', record w { phase = phase })

-- The worker at a position makes its next step.
unfoldable pub advance_at : (ℤ → ℤ → Bool) → ℕ → ℤ × List Worker → ℤ × List Worker
unfolding advance
advance_at keeps i (cell, []) = (cell, [])
advance_at keeps zero (cell, w ∷ ws) = let (cell', w') = advance keeps cell w in (cell', w' ∷ ws)
advance_at keeps (suc i) (cell, w ∷ ws) =
    let (cell', ws') = advance_at keeps i (cell, ws) in (cell', w ∷ ws')

-- The workers step in the order of the list of positions.
unfoldable pub run_schedule : (ℤ → ℤ → Bool) → List ℕ → ℤ × List Worker → ℤ × List Worker
unfolding advance_at
run_schedule keeps [] s = s
run_schedule keeps (i ∷ is) s = run_schedule keeps is (advance_at keeps i s)
