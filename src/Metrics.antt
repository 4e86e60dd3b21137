-- ===== src/Metrics.antt =====
-- internal/metrics/metrics.go: the counters, gauges and histograms that the node keeps. A counter is
-- the number of its increments, a histogram or a labelled one the list of what it observed, newest
-- first, with durations in nanoseconds.
pub mod Reader
pub mod Registry
use acp_kv.Prelude.{ℕ, ℤ, String, Bool, List, [], false, pos, ◌+◌, ◌∷◌}

pub record Metrics : Type 0 where
  pub put_latency : List ℤ
  pub get_latency : List ℤ
  pub replicate_latency : List (String × ℤ)
  pub replicate_acks_success : ℕ
  pub replicate_acks_failure : ℕ
  pub errors_rpc : ℕ
  pub errors_timeout : ℕ
  pub errors_health : ℕ
  pub write_success_total : ℕ
  pub write_failure_total : ℕ
  pub read_success_total : ℕ
  pub read_failure_total : ℕ
  pub write_ops_total : ℕ
  pub current_r : ℤ
  pub current_w : ℤ
  pub health_rtt : List (String × ℤ)
  pub quorum_adjustments : ℕ
  pub relax_adjustments : ℕ
  pub tighten_adjustments : ℕ
  pub hysteresis_active : Bool
  pub staleness_violations : ℕ
  pub stale_reads_rejected : ℕ
  pub conflicts_detected : ℕ
  pub conflicts_resolved : ℕ
  pub reconciliation_runs : ℕ
  pub reconciliation_keys : List ℕ
  pub reconciliation_latency : List ℤ
  pub partition_healing : ℕ

abbrev pub no_metrics : Metrics
no_metrics = record {
  put_latency = [];
  get_latency = [];
  replicate_latency = [];
  replicate_acks_success = 0;
  replicate_acks_failure = 0;
  errors_rpc = 0;
  errors_timeout = 0;
  errors_health = 0;
  write_success_total = 0;
  write_failure_total = 0;
  read_success_total = 0;
  read_failure_total = 0;
  write_ops_total = 0;
  current_r = pos 0;
  current_w = pos 0;
  health_rtt = [];
  quorum_adjustments = 0;
  relax_adjustments = 0;
  tighten_adjustments = 0;
  hysteresis_active = false;
  staleness_violations = 0;
  stale_reads_rejected = 0;
  conflicts_detected = 0;
  conflicts_resolved = 0;
  reconciliation_runs = 0;
  reconciliation_keys = [];
  reconciliation_latency = [];
  partition_healing = 0;
}

-- Metrics.RecordWriteSuccess
unfoldable pub record_write_success : Metrics → Metrics
record_write_success m = record m {
  write_success_total = m.write_success_total + 1;
  write_ops_total = m.write_ops_total + 1;
}

-- Metrics.RecordWriteFailure
unfoldable pub record_write_failure : Metrics → Metrics
record_write_failure m = record m {
  write_failure_total = m.write_failure_total + 1;
  write_ops_total = m.write_ops_total + 1;
}

-- Metrics.RecordReadSuccess
unfoldable pub record_read_success : Metrics → Metrics
record_read_success m = record m { read_success_total = m.read_success_total + 1 }

-- Metrics.RecordReadFailure
unfoldable pub record_read_failure : Metrics → Metrics
record_read_failure m = record m { read_failure_total = m.read_failure_total + 1 }
