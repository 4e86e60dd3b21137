-- ===== src/Bench/Intervals.antt =====
-- The intervals of the workers' tickers (`runWorker` of cmd/acp-adaptive-bench/main.go).
use native.Mathlib.Nat.{div-lt_iff_lt-mul, le-div_iff_mul-le}
use acp_kv.Prelude.{arith, false, is_some, pos, refl, suc, true, zero, ℕ, ◌*◌, ◌/◌, ◌<◌, ◌≡◌, ◌↔◌}
use acp_kv.Bench.Pace.{quot, ticker_interval, worker_interval}
use acp_kv.Bench.Run.{Config, worker_panics}
use acp_kv.Prelude.Float64.{Float64}

ticker_interval-is_some :
    (share : ℕ) → (is_some (ticker_interval (pos share)) ≡ true) ↔ (share < 1_000_000_001)
unfolding ticker_interval quot
ticker_interval-is_some zero = (λ e. omega arith, λ h. refl)
ticker_interval-is_some (suc n) =
    let (to, from) = le-div_iff_mul-le {k = suc n} {x = 1} {y = 1_000_000_000} (omega arith) in
    ground arith

-- With workers, and a throughput that is not negative, the ticker of a worker panics exactly where its share
-- is more than one operation in a nanosecond.
pub worker_interval-is_some :
    (t c : ℕ) → 0 < c → (is_some (worker_interval (pos t) (pos c)) ≡ true) ↔ (t < 1_000_000_001 * c)
unfolding worker_interval quot
worker_interval-is_some t c some_workers =
    let (to, from) = ticker_interval-is_some (t / c) in
    let (small, quotient) = div-lt_iff_lt-mul {k = c} {x = t} {y = 1_000_000_001} some_workers in
    (λ e. small (to e), λ h. from (quotient h))

module _ (F : Float64) where
  pub worker_panics_lem :
      (cfg : Config F) (t c : ℕ)
      → cfg.target_throughput ≡ pos t
      → cfg.concurrency ≡ pos c
      → t < 1_000_000_001 * c
      → worker_panics F cfg ≡ false
  unfolding worker_panics
  worker_panics_lem cfg t c rate workers small =
      let (to, from) = worker_interval-is_some t c (omega arith) in
      rw (rate, workers, from small) (ground arith)
