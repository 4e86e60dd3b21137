-- ===== src/Storage.antt =====
-- internal/storage/store.go: the in-memory store. The lock makes each operation one step;
-- `time.Now().UnixNano()` is the argument `now`.
pub mod Laws
pub mod Size
use acp_kv.Prelude.{
  ℕ, ℤ, pos, String, Bool, true, false, Option, none, some, List, [], ◌∷◌, str_eq, length, ltb_ℤ,
}
use acp_kv.Hlc.{Hlc, age, zero_hlc}
use acp_kv.Prelude.Map.{Map, lookup, insert}

-- []byte
abbrev pub Bytes : Type 0
Bytes = List ℕ

pub record VersionedValue : Type 0 where
  pub value : Bytes
  pub version : ℤ
  pub timestamp : ℤ
  pub node_id : String
  pub hlc : Hlc
  pub received_at : ℤ
  pub is_local : Bool

-- VersionedValue{}
abbrev pub zero_value : VersionedValue
zero_value = record {
  value = [];
  version = pos 0;
  timestamp = pos 0;
  node_id = "";
  hlc = zero_hlc;
  received_at = pos 0;
  is_local = false;
}

pub record Store : Type 0 where
  pub entries : Map VersionedValue

unfoldable pub new_store : Store
new_store = record { entries = [] }

-- Store.Put. The fields that its literal leaves out are zero.
unfoldable pub put : ℤ → String → Bytes → String → Store → VersionedValue × Store
put now key value node_id s =
    let vv : VersionedValue = record zero_value {
      value = value;
      version = now;
      timestamp = now;
      node_id = node_id;
    } in
    (vv, record { entries = insert key vv s.entries })

-- Store.Get; Go's pair of a value and a flag is an option.
unfoldable pub get : String → Store → Option VersionedValue
get key s = lookup key s.entries

unfoldable pub get_all : String → Store → List VersionedValue
get_all key s = elim (lookup key s.entries) [ none ↦ [] | some vv ↦ vv ∷ [] ]

-- Store.Size
unfoldable pub size : Store → ℕ
size s = length s.entries

-- The value that `PutWithHLC` stores.
unfoldable pub stamped : ℤ → Bytes → String → Hlc → VersionedValue
stamped now value node_id timestamp = record {
  value = value;
  version = timestamp.physical;
  timestamp = timestamp.physical;
  node_id = node_id;
  hlc = timestamp;
  received_at = now;
  is_local = str_eq node_id timestamp.node_id;
}

-- Store.PutWithHLC
unfoldable pub put_with_hlc : ℤ → String → Bytes → String → Hlc → Store → VersionedValue × Store
put_with_hlc now key value node_id timestamp s =
    let vv = stamped now value node_id timestamp in
    (vv, record { entries = insert key vv s.entries })

-- Store.GetWithStaleness: the value, whether it was found, and whether it is stale.
unfoldable pub get_with_staleness : ℤ → String → ℤ → Store → VersionedValue × Bool × Bool
get_with_staleness now key max_age s = elim (lookup key s.entries) [
  | none ↦ (zero_value, false, false)
  | some vv ↦ (vv, true, ltb_ℤ max_age (age vv.hlc now))
]

unfoldable pub get_conflicts : String → Store → List VersionedValue
get_conflicts key s = elim (lookup key s.entries) [ none ↦ [] | some vv ↦ vv ∷ [] ]
