-- ===== src/Reconcile/Log/Inv.antt =====
-- The log's buffers stay consistent, and no operation reads or writes out of range.
use acp_kv.Prelude.{
  List, String, [], ap, arith, length, length-replicate, refl, replicate, set, suc, sym, zero, ℕ,
  ◌<◌, ◌∷◌, ◌≡◌, length-set, pos, ℤ,
}
use acp_kv.Hlc.{Hlc}
use acp_kv.Prelude.Window.{IsRing, oldest_first, push_bounded, oldest_first-write, write-IsRing}
use acp_kv.Reconcile.Log.{add, RecentWriteLog, WriteEntry, new_recent_write_log, zero_entry}
use acp_kv.Storage.{Bytes}

abbrev pub stamps : List WriteEntry → List ℤ
stamps [] = []
stamps (e ∷ es) = e.timestamp ∷ stamps es

-- The buffers have `max_size` slots, of which the first `count` are in use, and the two agree.
pub record IsValid (l : RecentWriteLog) : Type 0 where
  pub sized : length l.entries ≡ l.max_size
  pub stamped : l.timestamps ≡ stamps l.entries
  pub ring : IsRing l.entries l.index l.count

-- The writes that the log holds, from the slot of the next write on where all slots are in use. That is
-- oldest first, but for a log that `Cleanup` copied after the buffer had gone round.
abbrev pub writes : RecentWriteLog → List WriteEntry
writes l = oldest_first l.entries l.index l.count

pub stamps-set :
    (es : List WriteEntry) (i : ℕ) (e : WriteEntry)
    → stamps (set es i e) ≡ set (stamps es) i e.timestamp
stamps-set [] i e = refl
stamps-set (x ∷ es) zero e = refl
stamps-set (x ∷ es) (suc i) e = ap (λ l. x.timestamp ∷ l) (stamps-set es i e)

pub stamps-replicate : (n : ℕ) → stamps (replicate n zero_entry) ≡ replicate n (pos 0)
stamps-replicate zero = refl
stamps-replicate (suc n) = ap (λ l. pos 0 ∷ l) (stamps-replicate n)

-- A new log with room for at least one write is consistent and empty.
pub new_recent_write_log-IsValid :
    (n : ℕ) (max_age : ℤ)
    → 0 < n
    → IsValid (new_recent_write_log n max_age) × (writes (new_recent_write_log n max_age) ≡ [])
unfolding new_recent_write_log
new_recent_write_log-IsValid n max_age h = (
  record {
    sized = length-replicate n zero_entry;
    stamped = sym (stamps-replicate n);
    ring = omega (arith, length-replicate n zero_entry);
  },
  ground (arith, length-replicate n zero_entry),
)

-- The entry that `Add` makes of its arguments.
abbrev pub entry_of : ℤ → String → Bytes → String → Hlc → WriteEntry
entry_of now key value node_id t = record {
  key = key;
  value = value;
  node_id = node_id;
  hlc = t;
  timestamp = now;
}

-- `Add` keeps the log consistent, and puts the new write last of at most `max_size`: where the log is
-- full it drops the first, and nothing else.
pub add-writes :
    (now : ℤ) (key : String) (value : Bytes) (node_id : String) (t : Hlc) (l : RecentWriteLog)
    → IsValid l
    → IsValid (add now key value node_id t l)
      × (writes (add now key value node_id t l)
          ≡ push_bounded l.max_size (writes l) (entry_of now key value node_id t))
unfolding add
add-writes now key value node_id t l v =
    let e = entry_of now key value node_id t in
    rw (← v.sized) (
      record {
        sized = length-set l.entries l.index e;
        stamped = rw v.stamped (sym (stamps-set l.entries l.index e));
        ring = write-IsRing l.entries l.index l.count e v.ring;
      },
      oldest_first-write l.entries l.index l.count e v.ring,
    )
