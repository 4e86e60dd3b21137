-- ===== src/Adaptive/Quorum/Safe.antt =====
-- Quorum sizes stay safe under `SetQuorum` (internal/adaptive/quorum.go).
use acp_kv.Prelude.{
  Bool-cases, Option-cases, inl, inr, sym, ◌∙◌, FitsInt64, add64, arith, if◌then◌else◌, is_some,
  none, pos, pos_part, some, true, ℤ, ◌+ℤ◌, ◌<ℤ◌, ◌<◌, ◌^◌, ◌↔◌, ◌≡◌, ◌≢◌, ◌≤ℤ◌, +ℤ_parts,
  add64_parts, refl, -ℤ_parts,
}
use acp_kv.Adaptive.Quorum.{validate, AdaptiveQuorum, is_in_lockout, set_quorum, since}
use acp_kv.Failure.{in_lockout}
use acp_kv.Metrics.{Metrics}

-- Read and write quorums intersect, and both sizes are far from the limits of int64.
pub record IsSafe (q : AdaptiveQuorum) : Type 0 where
  pub intersects : q.n <ℤ q.current_r +ℤ q.current_w
  pub r_fits : pos_part q.current_r < 2 ^ 62
  pub w_fits : pos_part q.current_w < 2 ^ 62

-- The bounds that the operator configures.
abbrev pub HasBounds : AdaptiveQuorum → Type 0
HasBounds q =
    (pos 0 ≤ℤ q.min_r) × (pos 0 ≤ℤ q.min_w) × (q.max_r <ℤ pos (2 ^ 62)) × (q.max_w <ℤ pos (2 ^ 62))

-- The sizes lie in the configured bounds.
abbrev pub IsInBounds : AdaptiveQuorum → Type 0
IsInBounds q =
    (q.min_r ≤ℤ q.current_r)
    × (q.current_r ≤ℤ q.max_r)
    × (q.min_w ≤ℤ q.current_w)
    × (q.current_w ≤ℤ q.max_w)

-- `Validate` accepts exactly the sizes whose sum exceeds the number of nodes and that lie in bounds.
pub validate_accepts_iff :
    (r w : ℤ) (q : AdaptiveQuorum)
    → HasBounds q
    → FitsInt64 r
    → FitsInt64 w
    → (validate r w q ≡ none)
      ↔ ((q.n <ℤ add64 r w) × (q.min_r ≤ℤ r) × (r ≤ℤ q.max_r) × (q.min_w ≤ℤ w) × (w ≤ℤ q.max_w))
unfolding validate
validate_accepts_iff r w q b fr fw =
    (λ e. (ground arith, ground arith, ground arith, ground arith, ground arith), λ h. ground arith)

-- Outside the lockout `SetQuorum` fails exactly as `Validate` does; inside it fails for the lockout.
-- A failure changes nothing.
pub set_quorum-validate :
    (now later r w : ℤ) (q : AdaptiveQuorum) (m : Metrics)
    → ((set_quorum now later r w q m).0
        ≡ (if is_in_lockout now q then some in_lockout else validate r w q))
      × (is_some (set_quorum now later r w q m).0 ≡ true → (set_quorum now later r w q m).1 ≡ q)
      × (is_some (set_quorum now later r w q m).0 ≡ true → (set_quorum now later r w q m).2 ≡ m)
unfolding set_quorum validate is_in_lockout
set_quorum-validate now later r w q m = (ground arith, λ h. ground arith, λ h. ground arith)

pub set_quorum_accepted :
    (now later r w : ℤ) (q : AdaptiveQuorum) (m : Metrics)
    → (set_quorum now later r w q m).0 ≡ none
    → (set_quorum now later r w q m ≡ (
      none,
      record q { current_r = r; current_w = w; last_adjust_time = later },
      record m { current_r = r; current_w = w },
    ))
      × (validate r w q ≡ none)
unfolding set_quorum validate
set_quorum_accepted now later r w q m h = (ground arith, ground arith)

pub validate-IsSafe :
    (later r w : ℤ) (q : AdaptiveQuorum)
    → HasBounds q
    → validate r w q ≡ none
    → let q' : AdaptiveQuorum = record q {
      current_r = r;
      current_w = w;
      last_adjust_time = later;
    } in
      IsSafe q' × IsInBounds q'
unfolding validate
validate-IsSafe later r w q b h = (
  record {
    intersects = ground (arith, add64_parts r w, +ℤ_parts r w);
    r_fits = ground arith;
    w_fits = ground arith;
  },
  ground arith,
)

-- The lockout lasts exactly until `lockoutDuration` after the last adjustment, also where `time.Since`
-- is cut off at the limits of a duration. The lockout is an int64 that is not negative.
pub is_in_lockout_iff :
    (now : ℤ) (q : AdaptiveQuorum)
    → FitsInt64 q.lockout_duration
    → pos 0 ≤ℤ q.lockout_duration
    → (is_in_lockout now q ≡ true) ↔ (now <ℤ q.last_adjust_time +ℤ q.lockout_duration)
unfolding is_in_lockout since
is_in_lockout_iff now q fits h0 = (
  λ e.
      ground
        (arith, -ℤ_parts now q.last_adjust_time, +ℤ_parts q.last_adjust_time q.lockout_duration),
  λ h.
      ground
        (arith, -ℤ_parts now q.last_adjust_time, +ℤ_parts q.last_adjust_time q.lockout_duration),
)

set_quorum_succeeds :
    (now later r w : ℤ) (q : AdaptiveQuorum) (m : Metrics)
    → HasBounds q
    → FitsInt64 q.lockout_duration
    → pos 0 ≤ℤ q.lockout_duration
    → FitsInt64 r
    → FitsInt64 w
    → ((set_quorum now later r w q m).0 ≡ none) ↔ (
        (q.last_adjust_time +ℤ q.lockout_duration ≤ℤ now)
        × (q.n <ℤ r +ℤ w)
        × IsInBounds (record q { current_r = r; current_w = w; last_adjust_time = later }))
set_quorum_succeeds now later r w q m b fl l0 fr fw =
    let (which, _, _) = set_quorum-validate now later r w q m in
    let lockout = is_in_lockout_iff now q fl l0 in
    let (to, from) = validate_accepts_iff r w q b fr fw in
    elim (Bool-cases (is_in_lockout now q)) [
      | inl locked ↦
          let early = lockout.0 locked in
          let refused : (set_quorum now later r w q m).0 ≡ some in_lockout =
            which ∙ rw locked refl in
          (λ e. absurd (cc (e, refused)), λ (over, _, _). absurd (omega (arith, early, over)))
      | inr free ↦
          let same : (set_quorum now later r w q m).0 ≡ validate r w q = which ∙ rw free refl in
          (
            λ e.
                let (sum, r_low, r_high, w_low, w_high) = to (sym same ∙ e) in
                (
                  ground (arith, lockout.1, free),
                  omega
                      (arith, sum, r_low, r_high, w_low, w_high, b, add64_parts r w, +ℤ_parts r w),
                  (r_low, r_high, w_low, w_high),
                ),
            λ (over, sum, (r_low, r_high, w_low, w_high)).
                same
                ∙ from (
                  omega
                      (arith, sum, r_low, r_high, w_low, w_high, b, add64_parts r w, +ℤ_parts r w),
                  r_low,
                  r_high,
                  w_low,
                  w_high,
                ),
          )
    ]

-- `SetQuorum` succeeds exactly where the lockout is over, R + W exceeds N and both sizes lie in the bounds. Then
-- it takes the sizes, shows them in the gauges and starts the lockout; a failure changes nothing. The bounds are
-- not negative and below 2^62, the lockout is not negative, and it and the sizes are int64 values.
pub set_quorum_iff :
    (now later r w : ℤ) (q : AdaptiveQuorum) (m : Metrics)
    → HasBounds q
    → FitsInt64 q.lockout_duration
    → pos 0 ≤ℤ q.lockout_duration
    → FitsInt64 r
    → FitsInt64 w
    → let (e, q', m') = set_quorum now later r w q m in
      let asked : AdaptiveQuorum = record q {
        current_r = r;
        current_w = w;
        last_adjust_time = later;
      } in
      ((e ≡ none)
        ↔ ((q.last_adjust_time +ℤ q.lockout_duration ≤ℤ now) × (q.n <ℤ r +ℤ w) × IsInBounds asked))
      × (e ≡ none → (q' ≡ asked) × (m' ≡ record m { current_r = r; current_w = w }))
      × (e ≢ none → (q' ≡ q) × (m' ≡ m))
unfolding set_quorum
set_quorum_iff now later r w q m b fl l0 fr fw =
    let (which, same, shown) = set_quorum-validate now later r w q m in
    (
      set_quorum_succeeds now later r w q m b fl l0 fr fw,
      λ e.
          let (shape, _) = set_quorum_accepted now later r w q m e in
          (rw shape refl, rw shape refl),
      λ e.
          let h : is_some (set_quorum now later r w q m).0 ≡ true =
            elim (Option-cases (set_quorum now later r w q m).0) [
              | inl n ↦ absurd (e n)
              | inr (x, n) ↦ rw n refl
            ] in
          (same h, shown h),
    )
