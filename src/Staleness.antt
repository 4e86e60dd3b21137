-- ===== src/Staleness.antt =====
-- internal/staleness/detector.go: is a value too old?
pub mod Laws
mod Tests
use acp_kv.Prelude.{ℤ, Bool, Option, none, some, List, [], ◌∷◌, ltb_ℤ, if◌then◌else◌, ◌++◌, ◌+◌}
use acp_kv.Failure.{Error, staleness_exceeded}
use acp_kv.Hlc.{Hlc, age}
use acp_kv.Metrics.{Metrics}
use acp_kv.Storage.{VersionedValue}

pub record Detector : Type 0 where
  pub max_age : ℤ

unfoldable pub new_detector : ℤ → Detector
new_detector max_age = record { max_age = max_age }

unfoldable pub is_stale : Detector → Hlc → ℤ → Bool
is_stale d timestamp now = ltb_ℤ d.max_age (age timestamp now)

-- Detector.Age
unfoldable pub value_age : Detector → Hlc → ℤ → ℤ
value_age d timestamp now = age timestamp now

-- Detector.CheckStrict, with the counters that it increments.
unfoldable pub check_strict : ℤ → Detector → VersionedValue → Metrics → Option Error × Metrics
check_strict now d v m =
    if ltb_ℤ d.max_age (age v.hlc now)
    then (
      some (staleness_exceeded (age v.hlc now) d.max_age),
      record m {
        stale_reads_rejected = m.stale_reads_rejected + 1;
        staleness_violations = m.staleness_violations + 1;
      },
    )
    else (none, m)

-- The loop of `CheckMultiple`, with the two lists that it appends to.
check_from :
    ℤ
    → Detector
    → List VersionedValue
    → List VersionedValue
    → List VersionedValue
    → List VersionedValue × List VersionedValue
check_from now d [] fresh stale = (fresh, stale)
check_from now d (v ∷ vs) fresh stale =
    if is_stale d v.hlc now
    then check_from now d vs fresh (stale ++ v ∷ [])
    else check_from now d vs (fresh ++ v ∷ []) stale

unfoldable pub check_multiple :
    ℤ → Detector → List VersionedValue → List VersionedValue × List VersionedValue
unfolding check_from
check_multiple now d values = check_from now d values [] []
