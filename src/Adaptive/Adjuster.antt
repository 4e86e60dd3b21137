-- ===== src/Adaptive/Adjuster.antt =====
-- internal/adaptive/adjuster.go: one cycle of the controller that moves the quorum sizes. The peers
-- (`GetPeerAddresses`, in the order of the map) and what the registry returns are arguments.
pub mod Laws
pub mod Gap
pub mod Progress
mod Tests
use acp_kv.Adaptive.Quorum
use acp_kv.Prelude.{
  List, Option, String, [], add64, if◌then◌else◌, length, ltb, none, pos, some, sub64, ℤ, ◌&&◌, ◌+◌,
  ◌∷◌, Bool, is_some,
}
use acp_kv.Adaptive.Ccs.{
  CcsComponents, CcsComputer, add_to_ccs_history, compute_ccs, get_smoothed_ccs, record_metrics,
}
use acp_kv.Adaptive.Quorum.{AdaptiveQuorum, is_in_lockout, set_quorum}
use acp_kv.Metrics.{Metrics}
use acp_kv.Metrics.Reader.{
  HistogramStats, Registry, get_all_peers_latency_stats, get_clock_drift_stats,
  get_peer_latency_stats, get_write_success_rate,
}
use acp_kv.Prelude.Float64.{Float64}

-- The readings of the clock in a cycle: for the hysteresis gauge, for the lockout check of the
-- cycle, for that of `SetQuorum`, and for the time of the adjustment.
pub record Times : Type 0 where
  pub gauged : ℤ
  pub checked : ℤ
  pub applied : ℤ
  pub adjusted : ℤ

pub data Reason : Type 0 where
  relax tighten : Reason

unfoldable pub count_reason : Reason → Metrics → Metrics
count_reason relax m = record m {
  quorum_adjustments = m.quorum_adjustments + 1;
  relax_adjustments = m.relax_adjustments + 1;
}
count_reason tighten m = record m {
  quorum_adjustments = m.quorum_adjustments + 1;
  tighten_adjustments = m.tighten_adjustments + 1;
}

-- Steps 7 to 9 of `adjustQuorum`: validate, apply, and record.
unfoldable pub apply_adjustment :
    Times → Option (ℤ × ℤ × Reason) → AdaptiveQuorum × Metrics → AdaptiveQuorum × Metrics
unfolding count_reason
apply_adjustment t none (q, m) = (q, m)
apply_adjustment t (some (new_r, new_w, reason)) (q, m) =
    let (e, q', m') = set_quorum t.applied t.adjusted new_r new_w q m in
    if is_some (Quorum.validate new_r new_w q)
    then (q, m)
    else if is_some e
    then (q', m')
    else (q', count_reason reason m')

module _ (F : Float64) where
  open F use {Carrier}

  -- The gauges that only the controller sets; a labelled one is the list of its settings, newest first.
  pub record Gauges : Type 0 where
    pub rtt_variance : List (String × Carrier)
    pub ccs_raw : Carrier
    pub ccs_smoothed : Carrier
    pub ccs_components : CcsComponents F

  pub record Adjuster : Type 0 where
    pub quorum : AdaptiveQuorum
    pub ccs_computer : CcsComputer F
    pub relax_threshold : Carrier
    pub tighten_threshold : Carrier
    pub metrics : Metrics
    pub gauges : Gauges

  unfoldable pub new_adjuster :
      AdaptiveQuorum → CcsComputer F → Carrier → Carrier → Metrics → Gauges → Adjuster
  new_adjuster quorum computer relax_threshold tighten_threshold m gauges = record {
    quorum = quorum;
    ccs_computer = computer;
    relax_threshold = relax_threshold;
    tighten_threshold = tighten_threshold;
    metrics = m;
    gauges = gauges;
  }

  -- Whether the spread between the 95th percentile and the average is to be used.
  abbrev pub has_spread : HistogramStats F → Bool
  has_spread stats = ltb 0 stats.samples && F.less (F.from_nat 0) stats.p95

  -- "record per-peer variance in ms^2": the loop of `adjustQuorum`.
  unfoldable pub peer_variances :
      Registry F → List String → List (String × Carrier) → List (String × Carrier)
  peer_variances reg [] set_before = set_before
  peer_variances reg (peer ∷ peers) set_before =
      peer_variances reg peers (elim (get_peer_latency_stats F reg peer) [
        | none ↦ set_before
        | some stats ↦
            let ms = F.mul (F.sub stats.p95 stats.avg) (F.from_nat 1000) in
            if has_spread stats then (peer, F.mul ms ms) ∷ set_before else set_before
      ])

  -- Steps 1 and 2 of `adjustQuorum`, up to `RecordMetrics`.
  unfoldable pub gather : Registry F → List String → CcsComputer F → CcsComputer F
  gather reg peers cc' =
      let success_rate = get_write_success_rate F reg in
      let stats = get_all_peers_latency_stats F reg peers in
      let availability = F.div (F.from_nat stats.samples) (F.from_nat (length peers)) in
      let combined = F.mul success_rate availability in
      let spread = F.sub stats.p95 stats.avg in
      let variance = if has_spread stats then F.mul spread spread else F.from_nat 0 in
      record_metrics F stats.avg combined variance (F.sub (F.decimal 10 1) combined)
        (get_clock_drift_stats F reg peers) cc'

  -- CCSComputer.UpdateMetricsGauges
  unfoldable pub update_metrics_gauges : Carrier → Carrier → CcsComponents F → Gauges → Gauges
  update_metrics_gauges raw smoothed components g = record g {
    ccs_raw = raw;
    ccs_smoothed = smoothed;
    ccs_components = components;
  }

  -- Steps 5 and 6 of `adjustQuorum`: the sizes to try, if any.
  unfoldable pub decide : ℤ → Carrier → Adjuster → Option (ℤ × ℤ × Reason)
  decide now smoothed a =
      let r = Quorum.get_r a.quorum in
      let w = Quorum.get_w a.quorum in
      if is_in_lockout now a.quorum
      then none
      else if F.less smoothed a.relax_threshold
      then some (add64 r (pos 1), sub64 w (pos 1), relax)
      else if F.less a.tighten_threshold smoothed
      then some (sub64 r (pos 1), add64 w (pos 1), tighten)
      else none

  -- Adjuster.adjustQuorum
  unfoldable pub adjust_quorum : Times → Registry F → List String → Adjuster → Adjuster
  unfolding update_metrics_gauges peer_variances gather decide apply_adjustment
  adjust_quorum t reg peers a =
      let recorded = gather reg peers a.ccs_computer in
      let (raw, components) = compute_ccs F recorded in
      let computer = add_to_ccs_history F raw recorded in
      let smoothed = get_smoothed_ccs F computer in
      let gauges =
        update_metrics_gauges raw smoothed components
          (record a.gauges { rtt_variance = peer_variances reg peers a.gauges.rtt_variance }) in
      let m = record a.metrics { hysteresis_active = is_in_lockout t.gauged a.quorum } in
      let (q, m') = apply_adjustment t (decide t.checked smoothed a) (a.quorum, m) in
      record a { quorum = q; ccs_computer = computer; metrics = m'; gauges = gauges }

  -- What the ticker of `Start` runs: one cycle after another, until the context is done.
  unfoldable pub run_cycles : List (Times × Registry F × List String) → Adjuster → Adjuster
  run_cycles [] a = a
  run_cycles ((t, reg, peers) ∷ cycles) a = run_cycles cycles (adjust_quorum t reg peers a)
