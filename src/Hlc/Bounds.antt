-- ===== src/Hlc/Bounds.antt =====
-- How far the timestamps that a clock issues may run ahead (`maxDrift` of internal/hlc/clock.go).
use acp_kv.Prelude.{
  FitsInt64, neg_part, pos_part, ◌^◌, ◌+◌, All, List, [], arith, pos, refl, sub64_parts, subst, ℤ,
  ◌+ℤ◌, ◌∷◌, ◌≡◌, ◌≤ℤ◌, +ℤ_parts,
}
use native.Mathlib.Decide.{dec_lt}
use acp_kv.Hlc.{Clock, Hlc, now_hlc, update}
use acp_kv.Hlc.Drift.{IsTime, Near}
use acp_kv.Hlc.Monotone.{Event, issued, receive, stamp}

-- A call that reads a time of at most `last`; a remote time is any int64.
abbrev pub IsReadBy : ℤ → Event → Type 0
IsReadBy last (stamp now) = IsTime now × (now ≤ℤ last)
IsReadBy last (receive now remote) = IsTime now × (now ≤ℤ last) × FitsInt64 remote.physical

-- Each timestamp is at least the time at which it was issued and at most `last` and the drift.
abbrev pub IsWithin : ℤ → ℤ → List Event → List Hlc → Type 0
IsWithin last drift [] hs = hs ≡ []
IsWithin last drift (stamp now ∷ es) [] = ⊥
IsWithin last drift (stamp now ∷ es) (h ∷ hs) =
    (now ≤ℤ h.physical) × (h.physical ≤ℤ last +ℤ drift) × IsWithin last drift es hs
IsWithin last drift (receive now remote ∷ es) hs = IsWithin last drift es hs

max_drift-now_hlc : (now : ℤ) (c : Clock) → (now_hlc now c).1.max_drift ≡ c.max_drift
unfolding now_hlc
max_drift-now_hlc now c = ground arith

max_drift-update : (now : ℤ) (h : Hlc) (c : Clock) → (update now h c).1.max_drift ≡ c.max_drift
unfolding update
max_drift-update now h c = ground arith

now_hlc_within :
    (last now : ℤ) (c : Clock)
    → pos 0 ≤ℤ c.max_drift
    → now ≤ℤ last
    → Near last c
    → (now ≤ℤ (now_hlc now c).0.physical)
      × ((now_hlc now c).0.physical ≤ℤ last +ℤ c.max_drift)
      × Near last (now_hlc now c).1
unfolding now_hlc
now_hlc_within last now c m h near = (
  ground arith,
  ground (arith, +ℤ_parts last c.max_drift),
  ground (arith, +ℤ_parts last c.max_drift),
)

update-Near_last :
    (last now : ℤ) (remote : Hlc) (c : Clock)
    → IsTime now
    → FitsInt64 remote.physical
    → now ≤ℤ last
    → pos 0 ≤ℤ c.max_drift
    → Near last c
    → Near last (update now remote c).1
unfolding update
update-Near_last last now remote c t t' h m near =
    elim (dec_lt (neg_part remote.physical + pos_part now) (2 ^ 63 + 1)) [
      | yes close ↦ ground (arith, sub64_parts remote.physical now, +ℤ_parts last c.max_drift)
      | no early ↦ ground (arith, +ℤ_parts last c.max_drift)
    ]

-- Over any sequence of `Now` and `Update` calls, accepted or refused, whatever int64 timestamps the peers send,
-- the timestamps issued are not behind the time of their call and at most `max_drift` ahead of `last`. The calls
-- read times that are int64 values, not negative, and at most `last`; `max_drift` is not negative, and the clock
-- is at most `max_drift` ahead of `last` before the first call.
pub issued-IsWithin :
    (last : ℤ) (c : Clock) (es : List Event)
    → pos 0 ≤ℤ c.max_drift
    → Near last c
    → All (IsReadBy last) es
    → IsWithin last c.max_drift es (issued c es)
unfolding issued
issued-IsWithin last c [] m near reads = refl
issued-IsWithin last c (stamp now ∷ es) m near ((t, h), reads) =
    let d = (now_hlc now c).1 in
    let same = max_drift-now_hlc now c in
    let (low, high, kept) = now_hlc_within last now c m h near in
    (
      low,
      high,
      subst (λ k. IsWithin last k es (issued d es)) same
          (issued-IsWithin last d es (rw same m) kept reads),
    )
issued-IsWithin last c (receive now remote ∷ es) m near ((t, h, t'), reads) =
    let d = (update now remote c).1 in
    let same = max_drift-update now remote c in
    subst (λ k. IsWithin last k es (issued d es)) same
      (issued-IsWithin last d es (rw same m) (update-Near_last last now remote c t t' h m near)
        reads)
