-- ===== src/Bench/Tests.antt =====
-- Instances for the load generator: three workers at the latency cells, a write that a node refused,
-- and a pool of three connections.
use acp_kv.Prelude.{
  String, inr, map, none, ◌++◌, ◌⊎◌, ◌/◌, List, [], arith, length, not, pos, refl, select, true, ℕ,
  ℤ, ◌*◌, ◌+◌, ◌<◌, ◌^◌, ◌∷◌, ◌≡◌, ◌≤◌,
}
use acp_kv.Bench.Best.{IsBest, max_order, min_order, run_schedule-extremes}
use acp_kv.Bench.Cell.{Worker, finished, keeps_max, keeps_min, loading, run_schedule}
use acp_kv.Bench.Counts.{is_answered, reads_one, record_operations_lem}
use acp_kv.Bench.Pool.{ClientPool, new_client_pool, pool_health}
use acp_kv.Bench.Results.{Files, header, row_of}
use acp_kv.Bench.Rows.{IsCsv, IsReturned, run-rows, watched}
use acp_kv.Bench.Run.{Config, Course, Outside, parse_endpoints, run}
use acp_kv.Examples.{thousandths}
use acp_kv.Bench.Ends.{IsBusy, run_schedule_ends}
use acp_kv.Bench.Stats.{Operation, no_stats, reads, record_operations, writes}
use acp_kv.Failure.{Error, insufficient_acks, rpc}
use acp_kv.Proto.{answered, failed}
use acp_kv.Server.{failed_put, not_found}

abbrev worker : ℤ → Worker
worker l = record { latency_ns = l; phase = loading }

abbrev workers : List Worker
workers = worker (pos 30) ∷ worker (pos 10) ∷ []

-- Both load, the second swaps, the first fails to swap, loads again, and leaves the cell alone.
abbrev schedule : List ℕ
schedule = 0 ∷ 1 ∷ 1 ∷ 0 ∷ 0 ∷ []

run_schedule-extremes_example :
    IsBest keeps_min min_order (pos 99) (run_schedule keeps_min schedule (pos 99, workers)) workers
    × IsBest keeps_max max_order
        (pos 99)
        (run_schedule keeps_max schedule (pos 99, workers))
        workers
run_schedule-extremes_example = run_schedule-extremes schedule (pos 99) workers (refl, (refl, tt))

lowered : (run_schedule keeps_min schedule (pos 99, workers)).0 ≡ pos 10
unfolding run_schedule
lowered = refl

busy : IsBusy keeps_min schedule (pos 99, workers)
unfolding acp_kv.Bench.Cell.advance_at acp_kv.Bench.Cell.advance
busy = (λ e. cc (e), (λ e. cc (e), (λ e. cc (e), (λ e. cc (e), (λ e. cc (e), tt)))))

run_schedule_ends_example : length schedule ≤ (2 * length workers + 2) * length workers
run_schedule_ends_example =
    run_schedule_ends keeps_min schedule (pos 99) workers (refl, (refl, tt)) busy

-- A write that reached too few nodes, a read, and a read that was not answered.
abbrev operations : List (Operation × ℤ)
operations =
    (writes (answered (failed_put (insufficient_acks (pos 1) (pos 2)))), pos 5)
    ∷ (reads (answered not_found), pos 3)
    ∷ (reads (failed (rpc "deadline exceeded")), pos 9)
    ∷ []

few : length operations < 2 ^ 63
few = omega arith

record_operations_lem_example :
    let s = record_operations operations no_stats in
    (s.total_ops ≡ pos (length (select (λ o. true) operations)))
    × (s.success_ops ≡ pos (length (select is_answered operations)))
    × (s.failed_ops ≡ pos (length (select (λ o. not (is_answered o)) operations)))
    × (s.read_ops ≡ pos (length (select reads_one operations)))
    × (s.write_ops ≡ pos (length (select (λ o. not (reads_one o)) operations)))
record_operations_lem_example = record_operations_lem operations few

-- Files in memory.
abbrev files : Files
files = record {
  File = List (List String);
  create = λ name. inr [];
  write = λ row file. (none, file ++ row ∷ []);
  close = λ file. file;
}

in_memory : IsCsv files (λ file. file)
in_memory = record {
  created = λ name file e. cc (e);
  written = λ row file e. refl;
  closed = λ file. refl;
}

-- Two endpoints that can be dialled and answer.
abbrev outside : Outside thousandths
outside = record {
  split = λ text separator. "n1" ∷ "n2" ∷ [];
  trim_space = λ text. text;
  dial = λ endpoint. none;
  error_text = λ e. "";
  get_health_check = λ endpoint. answered not_found;
  to_int = λ v. pos (v / 1000);
  seconds = λ d. 180_000;
  format = record { rfc3339 = λ t. "now"; six_places = λ v. "0.3"; whole = λ n. "2" };
  files = files;
}

abbrev flags : Config thousandths
flags = record {
  endpoints = "n1,n2";
  prometheus_url = "http://localhost:9090";
  mode = "ccs-watch";
  ccs_threshold = 450;
  duration = pos 180_000_000_000;
  concurrency = pos 10;
  workload = "mixed";
  target_throughput = pos 1000;
  output_file = "results.csv";
}

-- The queries of a tick that finds 0.3 for every metric.
abbrev answers_all : String → Error ⊎ ℕ
answers_all text = inr 300

abbrev course : Course thousandths
course = record {
  first_update = (pos 1, answers_all);
  operations = operations;
  ticks = (pos 2, answers_all) ∷ (pos 3, answers_all) ∷ [];
}

abbrev pool : ClientPool
pool = record { clients = "n1" ∷ "n2" ∷ []; index = 0 }

opens :
    new_client_pool outside.dial (parse_endpoints thousandths outside flags.endpoints) ≡ inr pool
unfolding new_client_pool acp_kv.Bench.Pool.open_all parse_endpoints
opens = refl

answers : pool_health outside.error_text outside.get_health_check pool ≡ none
unfolding pool_health acp_kv.Bench.Pool.check_clients
answers = refl

run-rows_example :
    (file : List (List String)) × IsReturned thousandths file (run thousandths outside flags course)
    × (file
        ≡ header thousandths
          ∷ map (row_of thousandths outside.format) (watched thousandths outside flags course))
run-rows_example =
    run-rows thousandths outside (λ file. file) flags course pool [] 1000 10 in_memory
      (λ row file. refl) refl refl (omega arith) opens answers refl

-- The file of that run: the header and two rows.
abbrev row : List String
row = "now" ∷ "0.3" ∷ "0.3" ∷ "2" ∷ "2" ∷ "2" ∷ "2" ∷ []

kept :
    map (row_of thousandths outside.format) (watched thousandths outside flags course)
    ≡ row ∷ row ∷ []
unfolding row_of
kept = refl
