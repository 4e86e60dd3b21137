-- ===== src/Bench/Collector/Names.antt =====
-- The names that the load generator asks for, and those that a node registers
-- (benchmark/adaptive/metrics.go, internal/metrics/metrics.go).
use Prim.Native.String.{◌++◌ as str_append}
use acp_kv.Prelude.{All, List, String, [], ◌∷◌, false, inl, inr, refl, ◌≡◌, ◌⊎◌, ℤ}
use acp_kv.Bench.Collector.{HttpResponse, collect, extract, query_metric}
use acp_kv.Failure.{Error, no_data}
use acp_kv.Metrics.Registry.{series}
use acp_kv.Prelude.Float64.{Float64}
use acp_kv.Replication.{contains}

-- A request that fails, or a response that is no success, or one with no result.
pub data IsEmpty : Error ⊎ HttpResponse → Type 0 where
  lost : (e : Error) → IsEmpty (inl e)
  empty :
      (status body : String)
      → IsEmpty (
          inr (record {
            status_code = 200;
            status = status;
            body = body;
            decoded = inr (record { status = "success"; result = [] });
          }))

-- The rate over a minute of a metric in the namespace that `acp-node` chooses.
abbrev pub rate : String → String
rate name = str_append "rate(acp_" (str_append name "[1m])")

-- The names that `Update` takes the rates of, for the success rate.
abbrev pub asked : List String
asked =
    "reads_success_total" ∷ "writes_success_total" ∷ "reads_failure_total" ∷ "writes_failure_total"
    ∷ []

-- Prometheus has no samples, in the namespace of a node, of the names asked for that are none of a node's series.
abbrev pub HasSeries : (String → Error ⊎ HttpResponse) → Type 0
HasSeries answer = All (λ name. contains name series ≡ false → IsEmpty (answer (rate name))) asked

query-empty :
    (F : Float64) (parse_float : String → Error ⊎ F.Carrier) (r : Error ⊎ HttpResponse)
    → IsEmpty r
    → (e : Error) × (query_metric F parse_float r ≡ inl e)
unfolding query_metric extract
query-empty F parse_float r (lost e) = (e, refl)
query-empty F parse_float r (empty status body) = (no_data, refl)

-- None of the four names that the load generator takes the success rate from is a series of a node; so the
-- success rate that it reads is zero whatever the nodes did, where Prometheus has no samples of those of the
-- four names that are not; the series are the counters, the gauges, and the buckets, sum and count of each histogram.
pub collect_blind :
    (F : Float64) (parse_float : String → Error ⊎ F.Carrier) (to_int : F.Carrier → ℤ) (now : ℤ)
    (answer : String → Error ⊎ HttpResponse)
    → HasSeries answer
    → All (λ name. contains name series ≡ false) asked
      × ((collect F to_int now (λ text. query_metric F parse_float (answer text))).success_rate
          ≡ F.from_nat 0)
unfolding collect contains
collect_blind F parse_float to_int now answer h =
    let (e, gone) = query-empty F parse_float (answer (rate "reads_success_total")) (h.0 refl) in
    ((refl, (refl, (refl, (refl, tt)))), rw gone refl)
