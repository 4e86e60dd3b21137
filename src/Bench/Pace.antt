-- ===== src/Bench/Pace.antt =====
-- cmd/acp-adaptive-bench/main.go: how often the workers of `runWorker` tick, and which keys they draw. The
-- conversion of a float64 to an integer is a parameter.
use acp_kv.Prelude.{
  Option, if◌then◌else◌, ltb_ℤ, none, pos, some, ℤ, ◌/◌, negsuc, suc, eqb_ℤ, sub_ℕ,
}
use acp_kv.Prelude.Float64.{Float64}

-- Go's division of int64s, which rounds towards zero, by a number that is not zero.
unfoldable pub quot : ℤ → ℤ → ℤ
quot (pos a) (pos b) = pos (a / b)
quot (pos a) (negsuc b) = sub_ℕ 0 (a / suc b)
quot (negsuc a) (pos b) = sub_ℕ 0 (suc a / b)
quot (negsuc a) (negsuc b) = pos (suc a / suc b)

-- The interval of a ticker with so many ticks in a second, and at least one, where `time.NewTicker` does
-- not panic.
unfoldable pub ticker_interval : ℤ → Option ℤ
unfolding quot
ticker_interval quotient =
    let target_ops_per_sec = if eqb_ℤ quotient (pos 0) then pos 1 else quotient in
    let interval = quot (pos 1_000_000_000) target_ops_per_sec in
    if ltb_ℤ (pos 0) interval then some interval else none

-- "rate limit per worker"
unfoldable pub worker_interval : ℤ → ℤ → Option ℤ
unfolding ticker_interval
worker_interval target_throughput concurrency = ticker_interval (quot target_throughput concurrency)

module _ (F : Float64) where
  open F use {Carrier}

  -- float64 of an int64
  unfoldable pub of_int : ℤ → Carrier
  of_int (pos n) = F.from_nat n
  of_int (negsuc n) = F.sub (F.from_nat 0) (F.from_nat (suc n))

  -- zipfian, from the number drawn.
  unfoldable pub zipfian : (Carrier → ℤ) → Carrier → ℤ → ℤ
  unfolding of_int
  zipfian to_int drawn max =
      to_int (F.mul (of_int max) (F.sub (F.from_nat 1) (F.div drawn (F.from_nat 10))))
