-- ===== src/Metrics/Reader.antt =====
-- internal/metrics/reader.go: what the adjuster reads back from the Prometheus registry. `Registry`
-- is what reading each metric returns, `none` being an error of the Prometheus library.
pub mod Laws
use acp_kv.Prelude.{
  List, Option, String, [], if◌then◌else◌, length, ltb, none, some, ℕ, ◌%◌, ◌+◌, ◌==◌, ◌^◌, ◌∷◌,
}
use acp_kv.Prelude.Float64.{Float64}
use acp_kv.Replication.{target}

module _ (F : Float64) where
  open F use {Carrier}

  -- dto.Histogram: the buckets have a cumulative count and an upper bound.
  pub record Histogram : Type 0 where
    pub sample_count : ℕ
    pub sample_sum : Carrier
    pub buckets : List (ℕ × Carrier)

  pub record Registry : Type 0 where
    pub write_success : Option Carrier
    pub write_failure : Option Carrier
    pub replicate_latency : String → Option Histogram
    pub health_rtt : String → Option Carrier
    pub hlc_drift : String → Option Carrier

  pub record HistogramStats : Type 0 where
    pub samples : ℕ
    pub sum : Carrier
    pub avg : Carrier
    pub p95 : Carrier

  abbrev pub no_stats : HistogramStats
  no_stats = record { samples = 0; sum = F.from_nat 0; avg = F.from_nat 0; p95 = F.from_nat 0 }

  -- MetricsReader.GetWriteSuccessRate
  unfoldable pub get_write_success_rate : Registry → Carrier
  get_write_success_rate reg = elim reg.write_success [
    | none ↦ F.decimal 10 1
    | some success ↦ elim reg.write_failure [
      | none ↦ F.decimal 10 1
      | some failure ↦
          if F.is_equal (F.add success failure) (F.from_nat 0)
          then F.decimal 10 1
          else F.div success (F.add success failure)
    ]
  ]

  -- The loop of `estimatePercentile`.
  unfoldable pub find_bucket : Carrier → List (ℕ × Carrier) → Carrier
  find_bucket target [] = F.from_nat 0
  find_bucket target ((count, bound) ∷ rest) =
      if F.at_most target (F.from_nat count) then bound else find_bucket target rest

  unfoldable pub estimate_percentile : Histogram → Carrier → Carrier
  unfolding find_bucket
  estimate_percentile hist percentile =
      if hist.sample_count == 0
      then F.from_nat 0
      else find_bucket (F.mul (F.from_nat hist.sample_count) percentile) hist.buckets

  -- MetricsReader.GetHistogramStats of a histogram that was read
  unfoldable pub get_histogram_stats : Histogram → HistogramStats
  unfolding estimate_percentile
  get_histogram_stats h = record {
    samples = h.sample_count;
    sum = h.sample_sum;
    avg =
        if ltb 0 h.sample_count
        then F.div h.sample_sum (F.from_nat h.sample_count)
        else F.from_nat 0;
    p95 = estimate_percentile h (F.decimal 95 2);
  }

  -- MetricsReader.GetPeerLatencyStats
  unfoldable pub get_peer_latency_stats : Registry → String → Option HistogramStats
  unfolding get_histogram_stats
  get_peer_latency_stats reg peer = elim (reg.replicate_latency peer) [
    | none ↦ none
    | some h ↦ some (get_histogram_stats h)
  ]

  -- The variables of the loop of `GetAllPeersLatencyStats`.
  pub record Totals : Type 0 where
    pub total_count : ℕ
    pub total_sum : Carrier
    pub max_p95 : Carrier
    pub successful_peers : ℕ

  unfoldable pub total_from : Registry → List String → Totals → Totals
  total_from reg [] t = t
  total_from reg (peer ∷ peers) t = total_from reg peers (elim (get_peer_latency_stats reg peer) [
    | none ↦ t
    | some stats ↦ record {
      total_count = (t.total_count + stats.samples) % 2 ^ 64;
      total_sum = F.add t.total_sum stats.sum;
      max_p95 = if F.less t.max_p95 stats.p95 then stats.p95 else t.max_p95;
      successful_peers = t.successful_peers + 1;
    }
  ])

  -- MetricsReader.GetAllPeersLatencyStats, which returns no error.
  unfoldable pub get_all_peers_latency_stats : Registry → List String → HistogramStats
  unfolding total_from
  get_all_peers_latency_stats reg peers =
      let t = total_from reg peers (record {
        total_count = 0;
        total_sum = F.from_nat 0;
        max_p95 = F.from_nat 0;
        successful_peers = 0;
      }) in
      if length peers == 0 then no_stats else record {
        samples = t.successful_peers;
        sum = t.total_sum;
        avg =
            if ltb 0 t.total_count
            then F.div t.total_sum (F.from_nat t.total_count)
            else F.from_nat 0;
        p95 = t.max_p95;
      }

  -- MetricsReader.GetClockDrift: milliseconds to seconds.
  unfoldable pub get_clock_drift : Registry → String → Option Carrier
  get_clock_drift reg peer = elim (reg.hlc_drift peer) [
    | none ↦ none
    | some ms ↦ some (F.div ms (F.decimal 10000 1))
  ]

  -- The loop of `GetClockDriftStats`: the sum of the drifts and their number.
  unfoldable pub drift_from : Registry → List String → Carrier × ℕ → Carrier × ℕ
  drift_from reg [] t = t
  drift_from reg (peer ∷ peers) t = drift_from reg peers (elim (get_clock_drift reg peer) [
    | none ↦ t
    | some drift ↦ if F.at_most (F.from_nat 0) drift then (F.add t.0 drift, t.1 + 1) else t
  ])

  -- MetricsReader.GetClockDriftStats
  unfoldable pub get_clock_drift_stats : Registry → List String → Carrier
  unfolding drift_from get_clock_drift
  get_clock_drift_stats reg peers =
      let (total, valid) = drift_from reg peers (F.from_nat 0, 0) in
      if length peers == 0
      then F.from_nat 0
      else if valid == 0
      then F.from_nat 0
      else F.div total (F.from_nat valid)

  -- MetricsReader.GetHealthRTT
  unfoldable pub get_health_rtt : Registry → String → Option Carrier
  get_health_rtt reg peer = reg.health_rtt peer

  -- The loop of `GetAverageHealthRTT`: the sum of the round trips and their number.
  unfoldable pub rtt_from : Registry → List String → Carrier × ℕ → Carrier × ℕ
  unfolding get_health_rtt
  rtt_from reg [] t = t
  rtt_from reg (peer ∷ peers) t = rtt_from reg peers (elim (get_health_rtt reg peer) [
    | none ↦ t
    | some rtt ↦ if F.less (F.from_nat 0) rtt then (F.add t.0 rtt, t.1 + 1) else t
  ])

  -- MetricsReader.GetAverageHealthRTT
  unfoldable pub get_average_health_rtt : Registry → List String → Carrier
  unfolding rtt_from
  get_average_health_rtt reg peers =
      let (total, valid) = rtt_from reg peers (F.from_nat 0, 0) in
      if length peers == 0
      then F.from_nat 0
      else if valid == 0
      then F.from_nat 0
      else F.div total (F.from_nat valid)
