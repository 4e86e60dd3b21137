-- ===== src/Hlc/Drift.antt =====
-- How far the clock may run ahead of the physical clock (`maxDrift` of internal/hlc/clock.go).
use acp_kv.Prelude.{
  ℤ, pos, ◌≡◌, ◌<◌, ◌^◌, some, arith, pos_part, neg_part, ◌≤ℤ◌, ◌<ℤ◌, ◌+ℤ◌, sub64, sub64_parts,
  +ℤ_parts, ◌↔◌, Bool-cases, ltb_ℤ, inl, inr,
}
use acp_kv.Failure.{clock_drift}
use acp_kv.Hlc.{Hlc, Clock, now_hlc, merge, advance, update}

-- Readings of a physical clock after 1970, and remote ones that are at least as late, within int64.
abbrev pub IsTime : ℤ → Type 0
IsTime t = (pos_part t < 2 ^ 63) × (neg_part t ≡ 0)

-- The clock is at most `max_drift` ahead of the physical time `now`.
abbrev pub Near : ℤ → Clock → Type 0
Near now c = c.physical ≤ℤ now +ℤ c.max_drift

-- `Update` refuses a remote timestamp exactly where it is more than `max_drift` ahead of the physical
-- clock. Then it reports the drift and leaves the clock as it was.
update_refused_iff :
    (now : ℤ) (remote : Hlc) (c : Clock)
    → IsTime now
    → IsTime remote.physical
    → (now +ℤ c.max_drift <ℤ remote.physical)
      ↔ (update now remote c ≡ (some (clock_drift remote.physical now c.max_drift), c))
unfolding update
update_refused_iff now remote c t t' = (
  λ h. ground (arith, sub64_parts remote.physical now, +ℤ_parts now c.max_drift),
  λ h. ground (arith, sub64_parts remote.physical now, +ℤ_parts now c.max_drift),
)

merge-Near :
    (now : ℤ) (remote : Hlc) (c : Clock)
    → remote.physical ≤ℤ now +ℤ c.max_drift
    → Near now c
    → Near now (merge remote c)
unfolding merge
merge-Near now remote c h k = ground arith

advance-Near : (now : ℤ) (c : Clock) → pos 0 ≤ℤ c.max_drift → Near now c → Near now (advance now c)
unfolding advance
advance-Near now c m h = ground (arith, +ℤ_parts now c.max_drift)

max_drift-merge : (remote : Hlc) (c : Clock) → (merge remote c).max_drift ≡ c.max_drift
unfolding merge
max_drift-merge remote c = ground arith

update-Near :
    (now : ℤ) (remote : Hlc) (c : Clock)
    → IsTime now
    → IsTime remote.physical
    → pos 0 ≤ℤ c.max_drift
    → Near now c
    → Near now (update now remote c).1
unfolding update
update-Near now remote c t t' m near =
    elim (Bool-cases (ltb_ℤ c.max_drift (sub64 remote.physical now))) [
      | inl far ↦ rw far near
      | inr ok ↦ rw ok (
          advance-Near now (merge remote c) (rw (max_drift-merge remote c) m) (
            merge-Near now remote c
              (ground (arith, sub64_parts remote.physical now, +ℤ_parts now c.max_drift)) near))
    ]

-- No call takes the clock more than `max_drift` ahead of the physical clock: from a clock within that
-- bound at an earlier time, `Update` with any remote timestamp and `Now` keep it. Times are int64 values
-- that are not negative, and so is `max_drift`.
pub drift_bounded :
    (before now : ℤ) (remote : Hlc) (c : Clock)
    → IsTime now
    → IsTime remote.physical
    → pos 0 ≤ℤ c.max_drift
    → before ≤ℤ now
    → Near before c
    → Near now (update now remote c).1 × Near now (now_hlc now c).1
unfolding now_hlc
drift_bounded before now remote c t t' m le near =
    let later : Near now c = omega (arith, +ℤ_parts now c.max_drift, +ℤ_parts before c.max_drift) in
    (update-Near now remote c t t' m later, ground (arith, +ℤ_parts now c.max_drift))
