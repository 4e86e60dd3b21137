-- ===== src/Bench/Report.antt =====
-- cmd/acp-adaptive-bench/main.go: what `reportProgress` and `printFinalStats` print.
use acp_kv.Prelude.{List, Option, String, [], if◌then◌else◌, ltb_ℤ, pos, ℕ, ℤ, ◌∷◌, sub64}
use acp_kv.Bench.Collector.{MetricsSnapshot}
use acp_kv.Bench.Stats.{BenchmarkStats}
use acp_kv.Prelude.Float64.{Float64}
use acp_kv.Bench.Pace.{of_int}

module _ (F : Float64) where
  open F use {Carrier}

  -- What the program prints, with the values in a line.
  pub data Line : Type 0 where
    connecting : ℕ → Line
    checking_health : Line
    cluster_healthy : Line
    connecting_to_prometheus : Line
    initial_ccs : Carrier → Carrier → Line
    workload_mix : String → Carrier → Carrier → Line
    starting : String → ℤ → ℤ → ℤ → Line
    progress : ℤ → ℤ → ℤ → ℤ → Carrier → Carrier → Option (MetricsSnapshot F) → ℤ → Line
    complete : ℤ → Line
    total_operations : ℤ → Line
    successful_operations : ℤ → Carrier → Line
    failed_operations : ℤ → Carrier → Line
    read_operations : ℤ → Carrier → Line
    write_operations : ℤ → Carrier → Line
    throughput_line : Carrier → Line
    latency_line : Carrier → Carrier → Carrier → Line
    results_written : String → Line

  abbrev to_ms : Carrier → Carrier
  to_ms nanoseconds = F.div nanoseconds (F.from_nat 1_000_000)

  -- A latency summed over all operations, by the successful ones.
  unfoldable pub average_latency : BenchmarkStats → Carrier
  unfolding of_int
  average_latency stats =
      to_ms (F.div (of_int F stats.total_latency_ns) (of_int F stats.success_ops))

  -- A tick of `reportProgress`; `seconds` is the method of a duration, and the snapshot is the collector's,
  -- where there is one.
  unfoldable pub report_progress :
      (ℤ → Carrier) → ℤ → ℤ → BenchmarkStats → Option (MetricsSnapshot F) → Line
  unfolding average_latency of_int
  report_progress seconds elapsed duration stats snapshot =
      progress elapsed stats.total_ops stats.success_ops stats.failed_ops
        (F.div (of_int F stats.total_ops) (seconds elapsed))
        (if ltb_ℤ (pos 0) stats.success_ops then average_latency stats else F.from_nat 0) snapshot
        (sub64 duration elapsed)

  -- float64(count)/float64(total)*100
  unfoldable pub percent : ℤ → ℤ → Carrier
  unfolding of_int
  percent count total = F.mul (F.div (of_int F count) (of_int F total)) (F.from_nat 100)

  unfoldable pub print_final_stats : (ℤ → Carrier) → BenchmarkStats → ℤ → List Line
  unfolding percent average_latency
  print_final_stats seconds stats duration =
      complete duration
      ∷ total_operations stats.total_ops
      ∷ successful_operations stats.success_ops (percent stats.success_ops stats.total_ops)
      ∷ failed_operations stats.failed_ops (percent stats.failed_ops stats.total_ops)
      ∷ read_operations stats.read_ops (percent stats.read_ops stats.total_ops)
      ∷ write_operations stats.write_ops (percent stats.write_ops stats.total_ops)
      ∷ throughput_line (F.div (of_int F stats.total_ops) (seconds duration))
      ∷ (if ltb_ℤ (pos 0) stats.success_ops
          then latency_line (average_latency stats) (to_ms (of_int F stats.min_latency_ns))
              (to_ms (of_int F stats.max_latency_ns))
            ∷ []
          else [])
