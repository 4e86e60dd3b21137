-- ===== src/Hlc.antt =====
-- internal/hlc/clock.go and proto.go: hybrid logical clocks. `time.Now().UnixNano()` is the argument
-- `now` of an operation. The mutex makes each operation one step.
pub mod Order
pub mod Monotone
pub mod Drift
pub mod Bounds
mod Tests
use acp_kv.Prelude.{
  ℤ, pos, negsuc, String, Bool, true, false, not, ◌&&◌, Option, none, some, ltb_ℤ, eqb_ℤ, add64,
  sub64, if◌then◌else◌,
}
use acp_kv.Failure.{Error, clock_drift}

-- hlc.HLC; `api/proto`'s message HLC has the same fields.
pub record Hlc : Type 0 where
  pub physical : ℤ
  pub logical : ℤ
  pub node_id : String

pub record Clock : Type 0 where
  pub physical : ℤ
  pub logical : ℤ
  pub node_id : String
  pub max_drift : ℤ

unfoldable pub new_clock : ℤ → String → ℤ → Clock
new_clock now node_id max_drift = record {
  physical = now;
  logical = pos 0;
  node_id = node_id;
  max_drift = max_drift;
}

-- The timestamp that `Now` returns from the clock's fields.
abbrev pub reading : Clock → Hlc
reading c = record { physical = c.physical; logical = c.logical; node_id = c.node_id }

unfoldable pub tick : ℤ → Clock → Clock
tick now c =
    if ltb_ℤ c.physical now
    then record c { physical = now; logical = pos 0 }
    else record c { logical = add64 c.logical (pos 1) }

-- Clock.Now
unfoldable pub now_hlc : ℤ → Clock → Hlc × Clock
unfolding tick
now_hlc now c = (reading (tick now c), tick now c)

-- The three cases of `Update` on the physical parts.
unfoldable pub merge : Hlc → Clock → Clock
merge remote c =
    if ltb_ℤ c.physical remote.physical
    then record c { physical = remote.physical; logical = add64 remote.logical (pos 1) }
    else if eqb_ℤ remote.physical c.physical
    then (if ltb_ℤ c.logical remote.logical
        then record c { logical = add64 remote.logical (pos 1) }
        else record c { logical = add64 c.logical (pos 1) })
    else record c { logical = add64 c.logical (pos 1) }

-- "advance if current time ahead of both"
unfoldable pub advance : ℤ → Clock → Clock
advance now c = if ltb_ℤ c.physical now then record c { physical = now; logical = pos 0 } else c

-- Clock.Update: the error, if any, and the clock after the call.
unfoldable pub update : ℤ → Hlc → Clock → Option Error × Clock
unfolding merge advance
update now remote c =
    if ltb_ℤ c.max_drift (sub64 remote.physical now)
    then (some (clock_drift remote.physical now c.max_drift), c)
    else (none, advance now (merge remote c))

unfoldable pub happens_before : Hlc → Hlc → Bool
happens_before h other =
    if ltb_ℤ h.physical other.physical
    then true
    else if eqb_ℤ h.physical other.physical && ltb_ℤ h.logical other.logical
    then true
    else false

unfoldable pub happens_after : Hlc → Hlc → Bool
unfolding happens_before
happens_after h other = happens_before other h

unfoldable pub is_concurrent_with : Hlc → Hlc → Bool
unfolding happens_after
is_concurrent_with h other = not (happens_before h other) && not (happens_after h other)

unfoldable pub equal : Hlc → Hlc → Bool
equal h other = eqb_ℤ h.physical other.physical && eqb_ℤ h.logical other.logical

unfoldable pub compare : Hlc → Hlc → ℤ
unfolding happens_after
compare h other =
    if happens_before h other then negsuc 0 else if happens_after h other then pos 1 else pos 0

-- The age of a timestamp, as a duration.
unfoldable pub age : Hlc → ℤ → ℤ
age h now = if ltb_ℤ h.physical now then sub64 now h.physical else pos 0

unfoldable pub is_zero : Hlc → Bool
is_zero h = eqb_ℤ h.physical (pos 0) && eqb_ℤ h.logical (pos 0)

unfoldable pub to_nanos : Hlc → ℤ
to_nanos h = h.physical

-- HLC{}
abbrev pub zero_hlc : Hlc
zero_hlc = record { physical = pos 0; logical = pos 0; node_id = "" }

-- A message may lack its `hlc` field: Go's nil pointer is `none`.
unfoldable pub to_proto : Hlc → Option Hlc
to_proto h = some (record { physical = h.physical; logical = h.logical; node_id = h.node_id })

unfoldable pub from_proto : Option Hlc → Hlc
from_proto none = zero_hlc
from_proto (some p) = record { physical = p.physical; logical = p.logical; node_id = p.node_id }
