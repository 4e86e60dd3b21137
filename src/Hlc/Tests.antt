-- ===== src/Hlc/Tests.antt =====
-- Runs and instances for the clock.
use acp_kv.Prelude.{pos, ◌≡◌, refl, List, [], ◌∷◌, arith, add64, sub64, +ℤ_parts}
use acp_kv.Hlc.{Hlc, Clock, reading, now_hlc, update}
use acp_kv.Hlc.Monotone.{
  Event, stamp, receive, issued, IsIncreasing, update-Before, issued-IsIncreasing,
}
use acp_kv.Hlc.Order.{Before}
use acp_kv.Hlc.Bounds.{IsWithin, issued-IsWithin}

abbrev clock : Clock
clock = record { physical = pos 1000; logical = pos 3; node_id = "node1"; max_drift = pos 50 }

abbrev remote : Hlc
remote = record { physical = pos 1040; logical = pos 7; node_id = "node2" }

abbrev far : Hlc
far = record remote { physical = pos 1100 }

abbrev script : List Event
script =
    stamp (pos 990) ∷ receive (pos 1010) remote ∷ receive (pos 1010) far ∷ stamp (pos 1010) ∷ []

issued-script :
    issued clock script
    ≡ record { physical = pos 1000; logical = pos 4; node_id = "node1" }
      ∷ record { physical = pos 1040; logical = pos 9; node_id = "node1" }
      ∷ []
unfolding issued now_hlc update add64 sub64
issued-script = refl

update-Before_example :
    Before (reading clock) (reading (update (pos 1010) remote clock).1)
    × Before remote (reading (update (pos 1010) remote clock).1)
unfolding update sub64
update-Before_example = update-Before (pos 1010) remote clock (omega arith) (omega arith) refl

issued-IsIncreasing_example : IsIncreasing (reading clock) (issued clock script)
issued-IsIncreasing_example = issued-IsIncreasing clock script (omega arith) (omega arith)

issued-IsWithin_example : IsWithin (pos 1010) (pos 50) script (issued clock script)
issued-IsWithin_example =
    issued-IsWithin (pos 1010) clock script (omega arith)
      (ground (arith, +ℤ_parts (pos 1010) (pos 50))) (omega arith)
