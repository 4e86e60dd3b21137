-- ===== src/Storage/Laws.antt =====
-- What a client can read back from the store (internal/storage/store.go).
use acp_kv.Prelude.{ℤ, String, ◌≡◌, refl, none, some, [], ◌∷◌, str_eq, if◌then◌else◌}
use acp_kv.Hlc.{Hlc}
use acp_kv.Prelude.Map.{lookup-insert}
use acp_kv.Storage.{Bytes, Store, put, get, get_all, stamped, put_with_hlc, get_conflicts}

-- A read after `PutWithHLC` sees the value just written under its key, and every other key as before.
pub get-put_with_hlc :
    (now : ℤ) (key j : String) (value : Bytes) (node_id : String) (t : Hlc) (s : Store)
    → get j (put_with_hlc now key value node_id t s).1
      ≡ (if str_eq key j then some (stamped now value node_id t) else get j s)
unfolding get put_with_hlc
get-put_with_hlc now key j value node_id t s =
    lookup-insert key j (stamped now value node_id t) s.entries

-- A read after `Put` sees the value that `Put` returned, under its key alone.
pub get-put :
    (now : ℤ) (key j : String) (value : Bytes) (node_id : String) (s : Store)
    → get j (put now key value node_id s).1
      ≡ (if str_eq key j then some (put now key value node_id s).0 else get j s)
unfolding get put
get-put now key j value node_id s = lookup-insert key j (put now key value node_id s).0 s.entries

-- `GetAll` and `GetConflicts` hold the value of `Get`, and nothing else: last write wins.
pub get_all-get :
    (key : String) (s : Store)
    → (get_all key s ≡ elim (get key s) [ none ↦ [] | some vv ↦ vv ∷ [] ])
      × (get_conflicts key s ≡ get_all key s)
unfolding get get_all get_conflicts
get_all-get key s = (refl, refl)
