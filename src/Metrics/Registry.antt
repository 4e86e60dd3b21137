-- ===== src/Metrics/Registry.antt =====
-- NewMetrics of internal/metrics/metrics.go: what it registers, and that it can. The registry of the Prometheus
-- library is a parameter.
pub mod Once
mod Tests
use Prim.Native.String.{◌++◌ as str_append}
use acp_kv.Prelude.{
  All, Bool, List, Option, String, [], false, map, none, some, str_eq, true, ℕ, ◌||◌, ◌∷◌, ◌++◌,
  ◌≡◌,
}

-- The buckets of a histogram: prometheus.DefBuckets, those of prometheus.LinearBuckets, or bounds in tenths.
pub data Buckets : Type 0 where
  def_buckets : Buckets
  linear_buckets : ℕ → ℕ → ℕ → Buckets
  tenths : List ℕ → Buckets

pub data Kind : Type 0 where
  counter gauge : Kind
  histogram : Buckets → Kind

-- The options of one metric, with the names of its labels.
pub record Opts : Type 0 where
  pub kind : Kind
  pub name : String
  pub help : String
  pub labels : List String

abbrev metric : Kind → String → String → List String → Opts
metric kind name help labels = record { kind = kind; name = name; help = help; labels = labels }

-- The metrics of requests and quorums.
abbrev request_opts : List Opts
request_opts =
    metric (histogram def_buckets) "put_latency_seconds" "Latency of PUT operations" []
    ∷ metric (histogram def_buckets) "get_latency_seconds" "Latency of GET operations" []
    ∷ metric (histogram def_buckets) "replicate_ack_latency_seconds"
        "Latency of replication acknowledgements per peer" ("peer" ∷ [])
    ∷ metric counter "replicate_acks_total" "Total replication acknowledgements" ("result" ∷ [])
    ∷ metric counter "errors_total" "Total errors by type" ("type" ∷ [])
    ∷ metric counter "write_success_total" "Total successful write operations" []
    ∷ metric counter "write_failure_total" "Total failed write operations" []
    ∷ metric counter "read_success_total" "Total successful read operations" []
    ∷ metric counter "read_failure_total" "Total failed read operations" []
    ∷ metric gauge "current_r" "Current read quorum size" []
    ∷ metric gauge "current_w" "Current write quorum size" []
    ∷ metric gauge "health_rtt_seconds" "Round trip time to peers" ("peer" ∷ [])
    ∷ metric gauge "rtt_variance_ms2" "RTT variance per peer in milliseconds squared" ("peer" ∷ [])
    ∷ metric counter "write_ops_total" "Total write operations" []
    ∷ []

-- The metrics of the controller, of staleness and of reconciliation.
abbrev controller_opts : List Opts
controller_opts =
    metric gauge "ccs_raw" "Raw consistency confidence score" []
    ∷ metric gauge "ccs_smoothed" "Smoothed consistency confidence score (10-sample moving average)"
        []
    ∷ metric gauge "ccs_component_rtt" "RTT health component of CCS" []
    ∷ metric gauge "ccs_component_avail" "Availability health component of CCS" []
    ∷ metric gauge "ccs_component_var" "Variance health component of CCS" []
    ∷ metric gauge "ccs_component_error" "Error health component of CCS" []
    ∷ metric counter "quorum_adjustments_total" "Total number of quorum adjustments" []
    ∷ metric counter "quorum_adjustment_reason_total" "Total number of quorum adjustments by reason"
        ("reason" ∷ [])
    ∷ metric gauge "hysteresis_active"
        "Whether hysteresis lockout is currently active (1=active, 0=inactive)" []
    ∷ metric gauge "hlc_drift_milliseconds" "Clock drift per peer in milliseconds" ("peer" ∷ [])
    ∷ metric counter "staleness_violations_total" "Total staleness bound violations detected" []
    ∷ metric counter "stale_reads_rejected_total" "Total read operations rejected due to staleness"
        []
    ∷ metric (histogram (tenths (1 ∷ 5 ∷ 10 ∷ 20 ∷ 30 ∷ 50 ∷ 100 ∷ []))) "data_age_seconds"
        "Distribution of data age on reads" []
    ∷ metric counter "conflicts_detected_total"
        "Total conflicts detected during reads or reconciliation" []
    ∷ metric counter "conflicts_resolved_total" "Total conflicts resolved using LWW" []
    ∷ metric counter "reconciliation_runs_total" "Total reconciliation runs executed" []
    ∷ metric (histogram (linear_buckets 0 10 10)) "reconciliation_keys"
        "Number of keys reconciled per run" []
    ∷ metric (histogram def_buckets) "reconciliation_latency_seconds"
        "Duration of reconciliation operations" []
    ∷ metric counter "partition_healing_total"
        "Partition healing events detected (peer reconnections)" []
    ∷ metric counter "read_repair_total" "Read repair operations performed" []
    ∷ metric gauge "ccs_component_clock" "Clock health component of CCS" []
    ∷ []

-- What `NewMetrics` registers, in its order.
abbrev pub all_opts : List Opts
all_opts = request_opts ++ controller_opts

-- Their names, before each of which Prometheus sets the namespace.
abbrev pub registered : List String
registered = map (λ (o : Opts). o.name) all_opts

-- The names of the series that Prometheus keeps of a metric.
abbrev pub series_of : Opts → List String
series_of o = elim o.kind [
  | counter ↦ o.name ∷ []
  | gauge ↦ o.name ∷ []
  | histogram b ↦
      str_append o.name "_bucket" ∷ str_append o.name "_sum" ∷ str_append o.name "_count" ∷ []
]

abbrev pub series_of_all : List Opts → List String
series_of_all [] = []
series_of_all (o ∷ os) = series_of o ++ series_of_all os

-- The names of all series of a node, without the namespace.
abbrev pub series : List String
series = series_of_all all_opts

-- `register` is what promauto does with the default registry, `none` where it panics; `full_name` is
-- prometheus.BuildFQName, and `has` whether a name is registered.
pub record Registerer : Type 1 where
  pub Registry : Type 0
  pub register : String → Opts → Registry → Option Registry
  pub full_name : String → String → String
  pub has : Registry → String → Bool

module _ (p : Registerer) (namespace : String) where
  open p use {Registry}

  unfoldable pub register_all : List Opts → Registry → Option Registry
  register_all [] r = some r
  register_all (o ∷ os) r = elim (p.register namespace o r) [
    | none ↦ none
    | some r' ↦ register_all os r'
  ]

  -- NewMetrics
  unfoldable pub new_metrics : Registry → Option Registry
  unfolding register_all
  new_metrics r = register_all all_opts r

  -- The full names of different names differ, and a metric is registered exactly where its name is free.
  pub record IsRegisterer : Type 0 where
    pub apart : (i j : String) → p.full_name namespace i ≡ p.full_name namespace j → i ≡ j
    pub fresh :
        (o : Opts) (r : Registry)
        → p.has r (p.full_name namespace o.name) ≡ false
        → (r' : Registry) × (p.register namespace o r ≡ some r')
          × ((n : String) → p.has r' n ≡ (str_eq (p.full_name namespace o.name) n || p.has r n))
    pub taken :
        (o : Opts) (r : Registry)
        → p.has r (p.full_name namespace o.name) ≡ true
        → p.register namespace o r ≡ none

  abbrev pub IsFree : Registry → List Opts → Type 0
  IsFree r os = All (λ (o : Opts). p.has r (p.full_name namespace o.name) ≡ false) os
