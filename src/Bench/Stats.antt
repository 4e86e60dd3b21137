-- ===== src/Bench/Stats.antt =====
-- cmd/acp-adaptive-bench/main.go: what a worker counts. The counters are atomic int64s.
use acp_kv.Prelude.{
  Bool, List, String, [], add64, false, if◌then◌else◌, inl, inr, pos, str_eq, true, ℤ, ◌-◌, ◌^◌,
  ◌∷◌, ◌⊎◌,
}
use acp_kv.Bench.Cell.{keeps_max, keeps_min}
use acp_kv.Bench.Pool.{grpc_get, grpc_put}
use acp_kv.Failure.{Error}
use acp_kv.Prelude.Float64.{Float64}
use acp_kv.Proto.{GetResponse, PutResponse, Reply}

pub record BenchmarkStats : Type 0 where
  pub total_ops : ℤ
  pub success_ops : ℤ
  pub failed_ops : ℤ
  pub total_latency_ns : ℤ
  pub min_latency_ns : ℤ
  pub max_latency_ns : ℤ
  pub read_ops : ℤ
  pub write_ops : ℤ

-- The statistics with which `run` starts.
abbrev pub no_stats : BenchmarkStats
no_stats = record {
  total_ops = pos 0;
  success_ops = pos 0;
  failed_ops = pos 0;
  total_latency_ns = pos 0;
  min_latency_ns = pos (2 ^ 63 - 1);
  max_latency_ns = pos 0;
  read_ops = pos 0;
  write_ops = pos 0;
}

abbrev increment : ℤ → ℤ
increment a = add64 a (pos 1)

-- An operation of a worker: a read with its reply, or a write with its.
pub data Operation : Type 0 where
  reads : Reply GetResponse → Operation
  writes : Reply PutResponse → Operation

abbrev pub is_read : Operation → Bool
is_read (reads r) = true
is_read (writes r) = false

abbrev failed_call {ℓ} : {A : Type ℓ} → Error ⊎ A → Bool
failed_call (inl e) = true
failed_call (inr a) = false

-- Whether the client that ran the operation returned an error.
unfoldable pub has_error : Operation → Bool
unfolding grpc_get grpc_put
has_error (reads r) = failed_call (grpc_get r)
has_error (writes r) = failed_call (grpc_put r)

-- The body of the loop of `runWorker` after the choice of the operation, with no other worker between.
unfoldable pub record_operation : Operation → ℤ → BenchmarkStats → BenchmarkStats
unfolding has_error
record_operation o latency_ns s = record {
  total_ops = increment s.total_ops;
  success_ops = if has_error o then s.success_ops else increment s.success_ops;
  failed_ops = if has_error o then increment s.failed_ops else s.failed_ops;
  total_latency_ns = add64 s.total_latency_ns latency_ns;
  min_latency_ns = if keeps_min latency_ns s.min_latency_ns then s.min_latency_ns else latency_ns;
  max_latency_ns = if keeps_max latency_ns s.max_latency_ns then s.max_latency_ns else latency_ns;
  read_ops = if is_read o then increment s.read_ops else s.read_ops;
  write_ops = if is_read o then s.write_ops else increment s.write_ops;
}

unfoldable pub record_operations : List (Operation × ℤ) → BenchmarkStats → BenchmarkStats
unfolding record_operation
record_operations [] s = s
record_operations ((o, latency_ns) ∷ os) s = record_operations os (record_operation o latency_ns s)

module _ (F : Float64) where
  open F use {Carrier}

  unfoldable pub get_read_ratio : String → Carrier
  get_read_ratio workload =
      if str_eq workload "read-heavy"
      then F.decimal 95 2
      else if str_eq workload "write-heavy"
      then F.decimal 5 2
      else F.decimal 5 1

  -- "determine operation type", from the random number drawn.
  unfoldable pub chooses_read : Carrier → String → Bool
  unfolding get_read_ratio
  chooses_read drawn workload = F.less drawn (get_read_ratio workload)
