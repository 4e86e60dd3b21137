-- ===== src/Staleness/Laws.antt =====
-- When a value is stale (internal/staleness/detector.go, and `GetWithStaleness` of
-- internal/storage/store.go).
use mathlib.Core.List.{append-nil, append_assoc}
use acp_kv.Prelude.{
  +ℤ_parts, Bool-cases, List, String, [], arith, false, inl, inr, ltb_ℤ, none, not, pos, refl,
  select, some, sub64_parts, true, ℤ, ◌++◌, ◌+ℤ◌, ◌+◌, ◌<ℤ◌, ◌↔◌, ◌∙◌, ◌∷◌, ◌≡◌, ◌≤ℤ◌, ◌⊎◌,
}
use acp_kv.Failure.{staleness_exceeded}
use acp_kv.Hlc.{age, Hlc}
use acp_kv.Hlc.Drift.{IsTime}
use acp_kv.Metrics.{Metrics}
use acp_kv.Staleness.{Detector, check_multiple, check_strict, is_stale, new_detector, check_from}
use acp_kv.Storage.{get, Store, VersionedValue, get_with_staleness, zero_value}

-- A value is stale exactly where its timestamp lies more than `maxAge` before `now`. Both times are
-- int64 values that are not negative, and so is `maxAge`.
pub is_stale_iff :
    (d : Detector) (t : Hlc) (now : ℤ)
    → IsTime t.physical
    → IsTime now
    → pos 0 ≤ℤ d.max_age
    → (is_stale d t now ≡ true) ↔ (t.physical +ℤ d.max_age <ℤ now)
unfolding is_stale age
is_stale_iff d t now h k m = (
  λ e. ground (arith, sub64_parts now t.physical, +ℤ_parts t.physical d.max_age),
  λ e. ground (arith, sub64_parts now t.physical, +ℤ_parts t.physical d.max_age),
)

-- The strict check fails exactly on stale values. It counts each failure once as a rejected read and
-- once as a violation, and a success not at all.
pub check_strict_cases :
    (now : ℤ) (d : Detector) (v : VersionedValue) (m : Metrics)
    → ((is_stale d v.hlc now ≡ true)
        × (check_strict now d v m ≡ (
          some (staleness_exceeded (age v.hlc now) d.max_age),
          record m {
            stale_reads_rejected = m.stale_reads_rejected + 1;
            staleness_violations = m.staleness_violations + 1;
          },
        )))
      ⊎ ((is_stale d v.hlc now ≡ false) × (check_strict now d v m ≡ (none, m)))
unfolding is_stale check_strict
check_strict_cases now d v m = elim (Bool-cases (ltb_ℤ d.max_age (age v.hlc now))) [
  | inl e ↦ inl (e, rw e)
  | inr e ↦ inr (e, rw e)
]

check_from_lem :
    (now : ℤ) (d : Detector) (vs fresh stale : List VersionedValue)
    → check_from now d vs fresh stale ≡ (
      fresh ++ select (λ v. not (is_stale d v.hlc now)) vs,
      stale ++ select (λ v. is_stale d v.hlc now) vs,
    )
unfolding check_from
check_from_lem now d [] fresh stale = simp append-nil
check_from_lem now d (v ∷ vs) fresh stale = elim (Bool-cases (is_stale d v.hlc now)) [
  | inl e ↦ rw e (check_from_lem now d vs fresh (stale ++ v ∷ []) ∙ simp append_assoc)
  | inr e ↦ rw e (check_from_lem now d vs (fresh ++ v ∷ []) stale ∙ simp append_assoc)
]

-- `CheckMultiple` splits its argument into the values that are not stale and those that are, each
-- list in the order of the argument.
pub check_multiple_lem :
    (now : ℤ) (d : Detector) (vs : List VersionedValue)
    → check_multiple now d vs
      ≡ (select (λ v. not (is_stale d v.hlc now)) vs, select (λ v. is_stale d v.hlc now) vs)
unfolding check_multiple
check_multiple_lem now d vs = check_from_lem now d vs [] []

-- Reading with a staleness check finds what `Get` finds, and calls it stale where a detector with the
-- same bound does.
pub get_with_staleness_lem :
    (now : ℤ) (key : String) (max_age : ℤ) (s : Store)
    → get_with_staleness now key max_age s ≡ elim (get key s) [
      | none ↦ (zero_value, false, false)
      | some vv ↦ (vv, true, is_stale (new_detector max_age) vv.hlc now)
    ]
unfolding get get_with_staleness is_stale new_detector
get_with_staleness_lem now key max_age s = refl
