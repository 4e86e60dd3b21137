-- ===== src/Reconcile/Log/Tests.antt =====
-- Instances for the log of recent writes.
use mathlib.Core.List.{Perm}
use acp_kv.Prelude.{List, [], arith, pos, refl, select, some, ◌∷◌, ◌≡◌}
use acp_kv.Examples.{entry, old_stamp}
use acp_kv.Prelude.Window.{push_bounded}
use acp_kv.Reconcile.Log.{add, get_all, RecentWriteLog, WriteEntry, cleanup}
use acp_kv.Reconcile.Log.Cleanup.{cleanup-writes}
use acp_kv.Reconcile.Log.Inv.{IsValid, add-writes, entry_of, writes}
use acp_kv.Reconcile.Log.Writes.{fresh, get_all-writes}

-- A full log of two slots that has gone round.
abbrev log : RecentWriteLog
log = record {
  entries = record entry { timestamp = pos 970 } ∷ entry ∷ [];
  timestamps = pos 970 ∷ pos 950 ∷ [];
  max_size = 2;
  index = 1;
  count = 2;
  max_age = pos 100;
}

log-IsValid : IsValid log
log-IsValid = record { sized = refl; stamped = refl; ring = omega arith }

add-writes_example :
    IsValid (add (pos 990) "j" (4 ∷ []) "n1" old_stamp log)
    × (writes (add (pos 990) "j" (4 ∷ []) "n1" old_stamp log)
        ≡ push_bounded 2 (writes log) (entry_of (pos 990) "j" (4 ∷ []) "n1" old_stamp))
add-writes_example = add-writes (pos 990) "j" (4 ∷ []) "n1" old_stamp log log-IsValid

get_all-writes_example :
    (es : List WriteEntry) × (get_all (pos 1060) log ≡ some es)
    × Perm es (select (fresh (pos 1060) log) (writes log))
get_all-writes_example = get_all-writes log log-IsValid (pos 1060)

cleanup-writes_example :
    (l' : RecentWriteLog) × (cleanup (pos 1060) log ≡ some l')
    × IsValid l'
    × Perm (writes l') (select (fresh (pos 1060) log) (writes log))
cleanup-writes_example = cleanup-writes log log-IsValid (pos 1060)
