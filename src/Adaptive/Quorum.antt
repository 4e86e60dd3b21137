-- ===== src/Adaptive/Quorum.antt =====
-- internal/adaptive/quorum.go: the current quorum sizes, their bounds, and the lockout between two
-- adjustments. A time is in nanoseconds since 1970; the lock makes each operation one step.
pub mod Safe
mod Tests
use acp_kv.Prelude.{
  Bool, Option, add64, if◌then◌else◌, leb_ℤ, ltb, ltb_ℤ, neg_part, negsuc, none, pos, pos_part,
  some, ℤ, ◌-ℤ◌, ◌-◌, ◌^◌, ◌||◌,
}
use acp_kv.Failure.{Error, in_lockout, intersection_violated, r_out_of_bounds, w_out_of_bounds}
use acp_kv.Metrics.{Metrics}

pub record AdaptiveQuorum : Type 0 where
  pub current_r : ℤ
  pub current_w : ℤ
  pub n : ℤ
  pub min_r : ℤ
  pub max_r : ℤ
  pub min_w : ℤ
  pub max_w : ℤ
  pub last_adjust_time : ℤ
  pub lockout_duration : ℤ

-- time.Time{}: the first of January of year 1.
abbrev pub zero_time : ℤ
zero_time = negsuc (62_135_596_800_000_000_000 - 1)

-- 5 * time.Second
abbrev pub five_seconds : ℤ
five_seconds = pos 5_000_000_000

unfoldable pub new_adaptive_quorum : ℤ → ℤ → ℤ → ℤ → ℤ → ℤ → ℤ → AdaptiveQuorum
new_adaptive_quorum initial_r initial_w n min_r max_r min_w max_w = record {
  current_r = initial_r;
  current_w = initial_w;
  n = n;
  min_r = min_r;
  max_r = max_r;
  min_w = min_w;
  max_w = max_w;
  last_adjust_time = zero_time;
  lockout_duration = five_seconds;
}

-- AdaptiveQuorum.GetR, GetW, GetN
unfoldable pub get_r : AdaptiveQuorum → ℤ
get_r q = q.current_r

unfoldable pub get_w : AdaptiveQuorum → ℤ
get_w q = q.current_w

unfoldable pub get_n : AdaptiveQuorum → ℤ
get_n q = q.n

-- time.Since: a duration that is out of range is the largest or smallest one.
unfoldable pub since : ℤ → ℤ → ℤ
since now t =
    let d = now -ℤ t in
    if ltb (2 ^ 63 - 1) (pos_part d)
    then pos (2 ^ 63 - 1)
    else if ltb (2 ^ 63) (neg_part d)
    then negsuc (2 ^ 63 - 1)
    else d

unfoldable pub is_in_lockout : ℤ → AdaptiveQuorum → Bool
is_in_lockout now q = ltb_ℤ (since now q.last_adjust_time) q.lockout_duration

-- AdaptiveQuorum.Validate
unfoldable pub validate : ℤ → ℤ → AdaptiveQuorum → Option Error
validate r w q =
    if leb_ℤ (add64 r w) q.n
    then some (intersection_violated r w q.n)
    else if ltb_ℤ r q.min_r || ltb_ℤ q.max_r r
    then some (r_out_of_bounds r q.min_r q.max_r)
    else if ltb_ℤ w q.min_w || ltb_ℤ q.max_w w
    then some (w_out_of_bounds w q.min_w q.max_w)
    else none

-- AdaptiveQuorum.SetQuorum at time `now`, the new adjustment time being `later`. The reason is logged.
unfoldable pub set_quorum :
    ℤ → ℤ → ℤ → ℤ → AdaptiveQuorum → Metrics → Option Error × AdaptiveQuorum × Metrics
set_quorum now later new_r new_w q m =
    if ltb_ℤ (since now q.last_adjust_time) q.lockout_duration
    then (some in_lockout, q, m)
    else if leb_ℤ (add64 new_r new_w) q.n
    then (some (intersection_violated new_r new_w q.n), q, m)
    else if ltb_ℤ new_r q.min_r || ltb_ℤ q.max_r new_r
    then (some (r_out_of_bounds new_r q.min_r q.max_r), q, m)
    else if ltb_ℤ new_w q.min_w || ltb_ℤ q.max_w new_w
    then (some (w_out_of_bounds new_w q.min_w q.max_w), q, m)
    else (
      none,
      record q { current_r = new_r; current_w = new_w; last_adjust_time = later },
      record m { current_r = new_r; current_w = new_w },
    )
