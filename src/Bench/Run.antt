-- ===== src/Bench/Run.antt =====
-- cmd/acp-adaptive-bench/main.go: `run`, from the flags to the file of results, with the lines that it
-- prints. What the workers and the ticks met while the benchmark ran is an argument, and so are the file, the
-- conversions of numbers, and what `strings` makes of a text.
use acp_kv.Prelude.{
  Bool, List, Option, String, [], if◌then◌else◌, inl, inr, length, ltb_ℤ, map, none, pos, some,
  str_eq, ℤ, ◌++◌, ◌∷◌, ◌⊎◌, not, is_some, ◌&&◌,
}
use acp_kv.Bench.Collector.{MetricsSnapshot, collect}
use acp_kv.Bench.Pool.{new_client_pool, pool_health}
use acp_kv.Bench.Results.{Files, Format, collect_metrics, write_results}
use acp_kv.Bench.Stats.{Operation, get_read_ratio, no_stats, record_operations}
use acp_kv.Failure.{Error, health_failure, pool_failure, write_failure}
use acp_kv.Prelude.Float64.{Float64}
use acp_kv.Proto.{GetResponse, Reply}
use acp_kv.Replication.{Dial}
use acp_kv.Bench.Pace.{worker_interval}
use acp_kv.Bench.Report.{
  Line, checking_health, cluster_healthy, connecting, connecting_to_prometheus, initial_ccs,
  print_final_stats, results_written, starting, workload_mix,
}

-- The flags of the command.
pub record Config (F : Float64) : Type 0 where
  pub endpoints : String
  pub prometheus_url : String
  pub mode : String
  pub ccs_threshold : F.Carrier
  pub duration : ℤ
  pub concurrency : ℤ
  pub workload : String
  pub target_throughput : ℤ
  pub output_file : String

module _ (F : Float64) where
  open F use {Carrier}

  -- What `run` uses: `split` and `trim_space` of `strings`, the dialling of an endpoint, the call of the
  -- health check and the text of an error, and the conversions of `fmt`, `time` and float64.
  pub record Outside : Type 1 where
    pub split : String → String → List String
    pub trim_space : String → String
    pub dial : Dial
    pub error_text : Error → String
    pub get_health_check : String → Reply GetResponse
    pub to_int : Carrier → ℤ
    pub seconds : ℤ → Carrier
    pub format : Format F
    pub files : Files

  -- What happens while it runs: the time and the queries of the first `Update`, the operations of the
  -- workers with their latencies, and the time and the queries of each tick of `collectMetrics`.
  pub record Course : Type 0 where
    pub first_update : ℤ × (String → Error ⊎ Carrier)
    pub operations : List (Operation × ℤ)
    pub ticks : List (ℤ × (String → Error ⊎ Carrier))

  -- A run returns an error, if any, after what it printed, with the file of results, where it created one;
  -- or a worker panics.
  pub data Outcome (File : Type 0) : Type 0 where
    returned : Option Error → List (Line F) → Option File → Outcome File
    panicked : Outcome File

  -- The start of `runWorker`: whether the ticker of a worker, where there is one, panics.
  unfoldable pub worker_panics : Config F → Bool
  unfolding worker_interval
  worker_panics cfg =
      ltb_ℤ (pos 0) cfg.concurrency
      && not (is_some (worker_interval cfg.target_throughput cfg.concurrency))

  module _ (outside : Outside) where
    -- "parse endpoints"
    unfoldable pub parse_endpoints : String → List String
    parse_endpoints endpoints = map outside.trim_space (outside.split endpoints ",")

    abbrev watches : Config F → Bool
    watches cfg = str_eq cfg.mode "ccs-watch"

    -- "create metrics collector": only in the mode ccs-watch. `Update` returns no error.
    unfoldable pub print_watch : Config F → Course → List (Line F)
    print_watch cfg course =
        if watches cfg
        then (let first = collect F outside.to_int course.first_update.0 course.first_update.1 in
            connecting_to_prometheus ∷ initial_ccs first.ccs_raw first.ccs_smoothed ∷ [])
        else []

    unfoldable pub print_start : Config F → List (Line F)
    print_start cfg =
        let read_ratio = get_read_ratio F cfg.workload in
        workload_mix cfg.workload (F.mul read_ratio (F.from_nat 100))
          (F.mul (F.sub (F.from_nat 1) read_ratio) (F.from_nat 100))
        ∷ starting cfg.mode cfg.duration cfg.concurrency cfg.target_throughput
        ∷ []

    -- "wait for metrics collection to finish, then collect all snapshots"
    unfoldable pub snapshots_of : Config F → Course → List (MetricsSnapshot F)
    snapshots_of cfg course =
        if watches cfg then collect_metrics F outside.to_int course.ticks [] else []

    -- `run` from the creation of the collector on: its error, what it printed, and the file of results.
    unfoldable pub run_benchmark : Config F → Course → List (Line F) → Outcome outside.files.File
    unfolding print_watch print_start snapshots_of worker_panics
    run_benchmark cfg course printed =
        let stats = record_operations course.operations no_stats in
        let lines =
          printed
          ++ print_watch cfg course
          ++ print_start cfg
          ++ print_final_stats F outside.seconds stats cfg.duration in
        let (error, file) =
          write_results F outside.files outside.format cfg.output_file (snapshots_of cfg course) in
        let outcome : Outcome outside.files.File = elim error [
          | some e ↦ returned (some (write_failure e)) lines file
          | none ↦ returned none (lines ++ results_written cfg.output_file ∷ []) file
        ] in
        if worker_panics cfg then panicked else outcome

    unfoldable pub run : Config F → Course → Outcome outside.files.File
    unfolding parse_endpoints run_benchmark
    run cfg course =
        let endpoints = parse_endpoints cfg.endpoints in
        let first = connecting (length endpoints) in
        elim (new_client_pool outside.dial endpoints) [
          | inl e ↦ returned (some (pool_failure e)) (first ∷ []) none
          | inr pool ↦ elim (pool_health outside.error_text outside.get_health_check pool) [
            | some e ↦ returned (some (health_failure e)) (first ∷ checking_health ∷ []) none
            | none ↦ run_benchmark cfg course (first ∷ checking_health ∷ cluster_healthy ∷ [])
          ]
        ]
