-- ===== src/Bench/Collector.antt =====
-- benchmark/adaptive/metrics.go: what the load generator reads from Prometheus. HTTP, the JSON decoder and
-- `strconv.ParseFloat` are parameters, and so is the conversion of a float64 to an integer.
pub mod Names
mod Tests
use acp_kv.Prelude.{
  List, String, [], if◌then◌else◌, inl, inr, not, pos, str_eq, ℕ, ℤ, ◌==◌, ◌∷◌, ◌⊎◌,
}
use acp_kv.Failure.{
  Error, invalid_format, no_data, not_text, parse_failure, query_failed, query_status,
}
use acp_kv.Prelude.Float64.{Float64}

-- An element of a result's `value`: only a text is read.
pub data JsonValue : Type 0 where
  json_text : String → JsonValue
  json_other : JsonValue

-- The decoded body: `status`, and the `value` of each result.
pub record QueryResult : Type 0 where
  pub status : String
  pub result : List (List JsonValue)

-- What `client.Do` returns: a response, with its body as text and as the decoder reads it.
pub record HttpResponse : Type 0 where
  pub status_code : ℕ
  pub status : String
  pub body : String
  pub decoded : Error ⊎ QueryResult

module _ (F : Float64) where
  open F use {Carrier}

  unfoldable pub parse_value : (String → Error ⊎ Carrier) → JsonValue → Error ⊎ Carrier
  parse_value parse_float json_other = inl not_text
  parse_value parse_float (json_text value) = elim (parse_float value) [
    | inl e ↦ inl (parse_failure e)
    | inr v ↦ inr v
  ]

  -- "extract value": the second element of the first result's `value`
  unfoldable pub extract : (String → Error ⊎ Carrier) → List (List JsonValue) → Error ⊎ Carrier
  unfolding parse_value
  extract parse_float [] = inl no_data
  extract parse_float ([] ∷ results) = inl invalid_format
  extract parse_float ((time ∷ []) ∷ results) = inl invalid_format
  extract parse_float ((time ∷ value ∷ others) ∷ results) = parse_value parse_float value

  -- MetricsCollector.queryMetric, from what the request returned: an error, or a response.
  unfoldable pub query_metric : (String → Error ⊎ Carrier) → Error ⊎ HttpResponse → Error ⊎ Carrier
  unfolding extract
  query_metric parse_float (inl e) = inl e
  query_metric parse_float (inr resp) =
      if not (resp.status_code == 200)
      then inl (query_failed resp.status resp.body)
      else elim resp.decoded [
        | inl e ↦ inl e
        | inr q ↦
            if not (str_eq q.status "success")
            then inl (query_status q.status)
            else extract parse_float q.result
      ]

  pub record MetricsSnapshot : Type 0 where
    pub timestamp : ℤ
    pub ccs_raw : Carrier
    pub ccs_smoothed : Carrier
    pub current_r : ℤ
    pub current_w : ℤ
    pub quorum_adjustments : ℤ
    pub staleness_violations : ℤ
    pub conflicts_detected : ℤ
    pub conflicts_resolved : ℤ
    pub read_latency_p95 : Carrier
    pub write_latency_p95 : Carrier
    pub throughput : Carrier
    pub success_rate : Carrier

  -- A field keeps its zero where the query failed.
  unfoldable pub fetch : {A : Type 0} → A → (Carrier → A) → Error ⊎ Carrier → A
  fetch zero_value convert (inl e) = zero_value
  fetch zero_value convert (inr v) = convert v

  -- "calculate success rate"
  unfoldable pub rate_of :
      Error ⊎ Carrier → Error ⊎ Carrier → Error ⊎ Carrier → Error ⊎ Carrier → Carrier
  rate_of (inr reads) (inr writes) (inr failed_reads) (inr failed_writes) =
      let total = F.add (F.add (F.add reads writes) failed_reads) failed_writes in
      if F.less (F.from_nat 0) total then F.div (F.add reads writes) total else F.from_nat 0
  rate_of (inr reads) (inr writes) (inr failed_reads) (inl e) = F.from_nat 0
  rate_of (inr reads) (inr writes) (inl e) failed_writes = F.from_nat 0
  rate_of (inr reads) (inl e) failed_reads failed_writes = F.from_nat 0
  rate_of (inl e) writes failed_reads failed_writes = F.from_nat 0

  -- MetricsCollector.Update, which returns no error: `query` is `queryMetric` of a text.
  unfoldable pub collect : (Carrier → ℤ) → ℤ → (String → Error ⊎ Carrier) → MetricsSnapshot
  unfolding fetch rate_of
  collect to_int now query =
      let whole : String → ℤ = λ text. fetch (pos 0) to_int (query text) in
      let value : String → Carrier = λ text. fetch (F.from_nat 0) (λ v. v) (query text) in
      let milliseconds : String → Carrier =
        λ text. fetch (F.from_nat 0) (λ v. F.mul v (F.from_nat 1000)) (query text) in
      record {
        timestamp = now;
        ccs_raw = value "acp_ccs_raw";
        ccs_smoothed = value "acp_ccs_smoothed";
        current_r = whole "acp_current_r";
        current_w = whole "acp_current_w";
        quorum_adjustments = whole "acp_quorum_adjustments_total";
        staleness_violations = whole "acp_staleness_violations_total";
        conflicts_detected = whole "acp_conflicts_detected_total";
        conflicts_resolved = whole "acp_conflicts_resolved_total";
        read_latency_p95 =
            milliseconds "histogram_quantile(0.95, rate(acp_get_latency_seconds_bucket[1m]))";
        write_latency_p95 =
            milliseconds "histogram_quantile(0.95, rate(acp_put_latency_seconds_bucket[1m]))";
        throughput = value "rate(acp_gets_total[1m]) + rate(acp_puts_total[1m])";
        success_rate =
            rate_of (query "rate(acp_reads_success_total[1m])")
              (query "rate(acp_writes_success_total[1m])")
              (query "rate(acp_reads_failure_total[1m])")
              (query "rate(acp_writes_failure_total[1m])");
      }

  -- MetricsCollector.GetCurrentQuorum
  unfoldable pub get_current_quorum : MetricsSnapshot → ℤ × ℤ
  get_current_quorum s = (s.current_r, s.current_w)
