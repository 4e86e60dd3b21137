-- ===== src/Adaptive/Adjuster/Tests.antt =====
-- Instances for the controller and its windows, with numbers in thousandths.
use acp_kv.Prelude.{
  ◌<ℤ◌, ◌+ℤ◌, ◌↔◌, ◌≤ℤ◌, ◌⊎◌, List, String, [], arith, pos, refl, some, ◌∷◌, ◌≡◌, if◌then◌else◌,
  length, none, select, str_eq,
}
use acp_kv.Adaptive.Adjuster.{Adjuster, Times, adjust_quorum, run_cycles}
use acp_kv.Adaptive.Adjuster.Gap.{adjust_quorum-overlap}
use acp_kv.Adaptive.Adjuster.Laws.{IsTuned, Moved, adjust_quorum-IsTuned, score_after, total}
use acp_kv.Adaptive.Adjuster.Progress.{HasRoom, IsLow, run_cycles-relaxed}
use acp_kv.Adaptive.Ccs.{new_ccs_computer}
use acp_kv.Adaptive.Quorum.{is_in_lockout}
use acp_kv.Adaptive.Window.{MetricsWindow, add_sample, new_metrics_window}
use acp_kv.Examples.{quorum, thousandths}
use acp_kv.Metrics.{no_metrics}
use acp_kv.Metrics.Reader.{Registry, get_all_peers_latency_stats}

-- Nine writes of ten succeed, and both peers answer in about 10 ms.
abbrev registry : Registry thousandths
registry = record {
  write_success = some 9000;
  write_failure = some 1000;
  replicate_latency =
      λ peer. some (record { sample_count = 4; sample_sum = 40; buckets = (3, 5) ∷ (4, 10) ∷ [] });
  health_rtt = λ peer. some 10;
  hlc_drift = λ peer. some 2000;
}

abbrev adjuster : Adjuster thousandths
adjuster = record {
  quorum = quorum;
  ccs_computer = new_ccs_computer thousandths;
  relax_threshold = 450;
  tighten_threshold = 750;
  metrics = no_metrics;
  gauges = record {
    rtt_variance = [];
    ccs_raw = 0;
    ccs_smoothed = 0;
    ccs_components = record {
      rtt_health = 0;
      avail_health = 0;
      var_health = 0;
      error_health = 0;
      clock_health = 0;
    };
  };
}

abbrev times : Times
times = record {
  gauged = pos 6_000_000_000;
  checked = pos 6_000_000_001;
  applied = pos 6_000_000_002;
  adjusted = pos 6_000_000_003;
}

quorum-IsTuned : IsTuned quorum
unfolding acp_kv.Prelude.◌+ℤ◌
quorum-IsTuned = record {
  bounds = (omega arith, omega arith, omega arith, omega arith);
  safe = record { intersects = omega arith; r_fits = omega arith; w_fits = omega arith };
  inside = (omega arith, omega arith, omega arith, omega arith);
}

-- The cluster is healthy: the controller moves a unit from R to W.
tightened :
    let q = (adjust_quorum thousandths times registry ("n2" ∷ "n3" ∷ []) adjuster).quorum in
    (q.current_r ≡ pos 1) × (q.current_w ≡ pos 3)
unfolding adjust_quorum is_in_lockout acp_kv.Adaptive.Quorum.since acp_kv.Prelude.◌-ℤ◌
    acp_kv.Adaptive.Ccs.get_smoothed_ccs acp_kv.Adaptive.Window.get_average
    acp_kv.Adaptive.Ccs.add_to_ccs_history add_sample acp_kv.Adaptive.Ccs.record_metrics
    new_ccs_computer new_metrics_window acp_kv.Adaptive.Ccs.compute_ccs
    acp_kv.Metrics.Reader.get_all_peers_latency_stats acp_kv.Metrics.Reader.get_peer_latency_stats
    acp_kv.Metrics.Reader.get_write_success_rate acp_kv.Metrics.Reader.get_clock_drift_stats
    acp_kv.Adaptive.Quorum.validate acp_kv.Adaptive.Quorum.get_r acp_kv.Adaptive.Quorum.get_w
    acp_kv.Adaptive.Quorum.set_quorum acp_kv.Prelude.add64 acp_kv.Prelude.sub64
tightened = (refl, refl)

adjust_quorum-IsTuned_example :
    let a' = adjust_quorum thousandths times registry ("n2" ∷ "n3" ∷ []) adjuster in
    IsTuned a'.quorum
    × (total a'.quorum ≡ total quorum)
    × Moved
        (thousandths.less (score_after thousandths a') 450)
        (thousandths.less 750 (score_after thousandths a'))
        times.checked
        times.adjusted
        quorum
        a'.quorum
adjust_quorum-IsTuned_example =
    adjust_quorum-IsTuned thousandths times registry ("n2" ∷ "n3" ∷ []) adjuster quorum-IsTuned

adjust_quorum-overlap_example :
    let q' = (adjust_quorum thousandths times registry ("n2" ∷ "n3" ∷ []) adjuster).quorum in
    (quorum.n <ℤ q'.current_r +ℤ quorum.current_w)
    ↔ ((quorum.current_r ≤ℤ q'.current_r) ⊎ (quorum.n +ℤ pos 1 <ℤ total quorum))
adjust_quorum-overlap_example =
    adjust_quorum-overlap thousandths times registry ("n2" ∷ "n3" ∷ []) adjuster quorum-IsTuned

abbrev cycles : List (Times × Registry thousandths × List String)
cycles = (times, registry, "n2" ∷ "n3" ∷ []) ∷ (times, registry, "n2" ∷ []) ∷ []

-- No write succeeds and no peer answers.
abbrev failing_registry : Registry thousandths
failing_registry = record registry { write_success = some 0; replicate_latency = λ peer. none }

abbrev failing_cycles : List (Times × Registry thousandths × List String)
failing_cycles = (times, failing_registry, "n2" ∷ "n3" ∷ []) ∷ []

failing : IsLow thousandths failing_cycles adjuster
unfolding adjust_quorum is_in_lockout acp_kv.Adaptive.Quorum.since acp_kv.Prelude.◌-ℤ◌
    acp_kv.Adaptive.Ccs.get_smoothed_ccs acp_kv.Adaptive.Window.get_average
    acp_kv.Adaptive.Ccs.add_to_ccs_history add_sample acp_kv.Adaptive.Ccs.record_metrics
    new_ccs_computer new_metrics_window acp_kv.Adaptive.Ccs.compute_ccs
    acp_kv.Metrics.Reader.get_all_peers_latency_stats acp_kv.Metrics.Reader.get_peer_latency_stats
    acp_kv.Metrics.Reader.get_write_success_rate acp_kv.Metrics.Reader.get_clock_drift_stats
    acp_kv.Adaptive.Quorum.validate acp_kv.Adaptive.Quorum.get_r acp_kv.Adaptive.Quorum.get_w
    acp_kv.Adaptive.Quorum.set_quorum acp_kv.Prelude.add64 acp_kv.Prelude.sub64
failing = (refl, refl, refl, tt)

room : HasRoom (length failing_cycles) quorum
unfolding acp_kv.Prelude.◌+ℤ◌
room = (omega arith, omega arith)

run_cycles-relaxed_example :
    let q' = (run_cycles thousandths failing_cycles adjuster).quorum in
    (q'.current_r ≡ quorum.current_r +ℤ pos (length failing_cycles))
    × (q'.current_w +ℤ pos (length failing_cycles) ≡ quorum.current_w)
run_cycles-relaxed_example =
    run_cycles-relaxed thousandths failing_cycles adjuster quorum-IsTuned room failing

-- A registry that has no statistics of n3.
abbrev partial_registry : Registry thousandths
partial_registry = record registry {
  replicate_latency = λ peer. if str_eq peer "n3" then none else registry.replicate_latency peer;
}
