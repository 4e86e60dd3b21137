-- ===== src/Staleness/Tests.antt =====
-- Instances for the staleness checks.
use acp_kv.Prelude.{false, none, pos, some, true, ◌≡◌, ◌⊎◌}
use acp_kv.Examples.{old_value, detector}
use acp_kv.Failure.{staleness_exceeded}
use acp_kv.Hlc.{age}
use acp_kv.Metrics.{no_metrics}
use acp_kv.Staleness.{check_strict, is_stale}
use acp_kv.Staleness.Laws.{check_strict_cases}

check_strict_cases_example :
    ((is_stale detector old_value.hlc (pos 1300) ≡ true)
      × (check_strict (pos 1300) detector old_value no_metrics ≡ (
        some (staleness_exceeded (age old_value.hlc (pos 1300)) detector.max_age),
        record no_metrics { stale_reads_rejected = 1; staleness_violations = 1 },
      )))
    ⊎ ((is_stale detector old_value.hlc (pos 1300) ≡ false)
        × (check_strict (pos 1300) detector old_value no_metrics ≡ (none, no_metrics)))
check_strict_cases_example = check_strict_cases (pos 1300) detector old_value no_metrics
