-- ===== src/Reconcile/Log.antt =====
-- internal/reconcile/log.go: a circular buffer of recent writes. `time.Now().UnixNano()` is the
-- argument `now`. Reading a slot out of range is a panic, `none`; writing one changes nothing, and
-- `IsValid` rules it out.
pub mod Inv
pub mod Writes
pub mod Cleanup
mod Tests
use acp_kv.Prelude.{
  List, Option, String, [], get_elem?, if◌then◌else◌, leb_ℤ, ltb, replicate, set, some, sub64, suc,
  zero, ℕ, ◌%◌, ◌+◌, ◌∷◌, ◌>>=◌, pos, ℤ,
}
use acp_kv.Hlc.{Hlc, zero_hlc}
use acp_kv.Storage.{Bytes}

pub record WriteEntry : Type 0 where
  pub key : String
  pub value : Bytes
  pub node_id : String
  pub hlc : Hlc
  pub timestamp : ℤ

-- WriteEntry{}
abbrev pub zero_entry : WriteEntry
zero_entry = record { key = ""; value = []; node_id = ""; hlc = zero_hlc; timestamp = pos 0 }

pub record RecentWriteLog : Type 0 where
  pub entries : List WriteEntry
  pub timestamps : List ℤ
  pub max_size : ℕ
  pub index : ℕ
  pub count : ℕ
  pub max_age : ℤ

unfoldable pub new_recent_write_log : ℕ → ℤ → RecentWriteLog
new_recent_write_log max_size max_age = record {
  entries = replicate max_size zero_entry;
  timestamps = replicate max_size (pos 0);
  max_size = max_size;
  index = 0;
  count = 0;
  max_age = max_age;
}

-- RecentWriteLog.Add
unfoldable pub add : ℤ → String → Bytes → String → Hlc → RecentWriteLog → RecentWriteLog
add now key value node_id timestamp l =
    let entry : WriteEntry = record {
      key = key;
      value = value;
      node_id = node_id;
      hlc = timestamp;
      timestamp = now;
    } in
    record l {
      entries = set l.entries l.index entry;
      timestamps = set l.timestamps l.index now;
      index = (l.index + 1) % l.max_size;
      count = if ltb l.count l.max_size then l.count + 1 else l.count;
    }

abbrev pub cutoff : ℤ → RecentWriteLog → ℤ
cutoff now l = sub64 now l.max_age

-- The loop of `GetAll` from slot `i`, with `n` rounds left.
unfoldable pub get_from : ℕ → ℕ → ℤ → RecentWriteLog → Option (List WriteEntry)
get_from zero i oldest l = some []
get_from (suc n) i oldest l = do
  stamp ← get_elem? l.timestamps i
  entry ← get_elem? l.entries i
  rest ← get_from n (i + 1) oldest l
  some (if leb_ℤ oldest stamp then entry ∷ rest else rest)

-- RecentWriteLog.GetAll
unfoldable pub get_all : ℤ → RecentWriteLog → Option (List WriteEntry)
get_all now l = get_from l.count 0 (cutoff now l) l

-- RecentWriteLog.Size
unfoldable pub size : RecentWriteLog → ℕ
size l = l.count

-- The variables of the loop in `Cleanup`.
pub record Kept : Type 0 where
  pub new_entries : List WriteEntry
  pub new_timestamps : List ℤ
  pub valid_count : ℕ

unfoldable pub keep : WriteEntry → ℤ → Kept → Kept
keep entry stamp k = record {
  new_entries = set k.new_entries k.valid_count entry;
  new_timestamps = set k.new_timestamps k.valid_count stamp;
  valid_count = k.valid_count + 1;
}

-- The loop of `Cleanup` from slot `i`, with `n` rounds left.
unfoldable pub keep_from : ℕ → ℕ → ℤ → RecentWriteLog → Kept → Option Kept
keep_from zero i oldest l k = some k
keep_from (suc n) i oldest l k = do
  stamp ← get_elem? l.timestamps i
  entry ← get_elem? l.entries i
  keep_from n (i + 1) oldest l (if leb_ℤ oldest stamp then keep entry stamp k else k)

unfoldable pub cleared : RecentWriteLog → Kept
cleared l = record {
  new_entries = replicate l.max_size zero_entry;
  new_timestamps = replicate l.max_size (pos 0);
  valid_count = 0;
}

unfoldable pub with_kept : RecentWriteLog → Kept → RecentWriteLog
with_kept l k = record l {
  entries = k.new_entries;
  timestamps = k.new_timestamps;
  count = k.valid_count;
  index = k.valid_count % l.max_size;
}

-- RecentWriteLog.Cleanup
unfoldable pub cleanup : ℤ → RecentWriteLog → Option RecentWriteLog
unfolding keep_from cleared with_kept keep
cleanup now l = do k ← keep_from l.count 0 (cutoff now l) l (cleared l); some (with_kept l k)
