-- ===== src/Bench/Collector/Tests.antt =====
-- A Prometheus with samples of one metric.
use acp_kv.Prelude.{false, All, [], if◌then◌else◌, inl, inr, pos, str_eq, ◌∷◌, ◌≡◌, ◌⊎◌, ℕ, String}
use acp_kv.Bench.Collector.{HttpResponse, collect, json_other, json_text, query_metric}
use acp_kv.Bench.Collector.Names.{asked, HasSeries, collect_blind, empty, rate}
use acp_kv.Examples.{thousandths, timed_out}
use acp_kv.Failure.{Error}
use acp_kv.Metrics.Registry.{series}
use acp_kv.Replication.{contains}

abbrev sampled : Error ⊎ HttpResponse
sampled = inr (record {
  status_code = 200;
  status = "200 OK";
  body = "";
  decoded = inr (record { status = "success"; result = (json_other ∷ json_text "7" ∷ []) ∷ [] });
})

abbrev unsampled : Error ⊎ HttpResponse
unsampled = inr (record {
  status_code = 200;
  status = "200 OK";
  body = "";
  decoded = inr (record { status = "success"; result = [] });
})

abbrev answer : String → Error ⊎ HttpResponse
answer text = if str_eq text (rate "read_success_total") then sampled else unsampled

answer-HasSeries : HasSeries answer
answer-HasSeries = (
  λ e. empty "200 OK" "",
  (λ e. empty "200 OK" "", (λ e. empty "200 OK" "", (λ e. empty "200 OK" "", tt))),
)

abbrev parse : String → Error ⊎ ℕ
parse text = if str_eq text "7" then inr 7000 else inl timed_out

collect_blind_example :
    All (λ name. contains name series ≡ false) asked
    × ((collect thousandths
          (λ v. pos v)
          (pos 0)
          (λ text. query_metric thousandths parse (answer text))).success_rate
        ≡ 0)
collect_blind_example = collect_blind thousandths parse (λ v. pos v) (pos 0) answer answer-HasSeries
