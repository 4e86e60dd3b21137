-- ===== src/Adaptive/Quorum/Tests.antt =====
-- Instances for the adaptive quorum, with N = 3 and R = W = 2.
use acp_kv.Prelude.{arith, none, pos, ◌+ℤ◌, ◌<ℤ◌, ◌↔◌, ◌≡◌, ◌≢◌, ◌≤ℤ◌}
use acp_kv.Adaptive.Quorum.{AdaptiveQuorum, set_quorum}
use acp_kv.Adaptive.Quorum.Safe.{HasBounds, IsInBounds, set_quorum_iff}
use acp_kv.Examples.{quorum}
use acp_kv.Metrics.{no_metrics}

bounds : HasBounds quorum
bounds = (omega arith, omega arith, omega arith, omega arith)

set_quorum_iff_example :
    let (e, q', m') =
      set_quorum (pos 6_000_000_000) (pos 6_000_000_001) (pos 3) (pos 1) quorum no_metrics in
    let asked : AdaptiveQuorum = record quorum {
      current_r = pos 3;
      current_w = pos 1;
      last_adjust_time = pos 6_000_000_001;
    } in
    ((e ≡ none) ↔ (
      (quorum.last_adjust_time +ℤ quorum.lockout_duration ≤ℤ pos 6_000_000_000)
      × (quorum.n <ℤ pos 3 +ℤ pos 1)
      × IsInBounds asked))
    × (e ≡ none → (q' ≡ asked) × (m' ≡ record no_metrics { current_r = pos 3; current_w = pos 1 }))
    × (e ≢ none → (q' ≡ quorum) × (m' ≡ no_metrics))
set_quorum_iff_example =
    set_quorum_iff (pos 6_000_000_000) (pos 6_000_000_001) (pos 3) (pos 1) quorum no_metrics bounds
      (omega arith) (omega arith) (omega arith) (omega arith)
