-- ===== src/Storage/Size.antt =====
-- `Size` counts the keys (internal/storage/store.go).
use acp_kv.Prelude.{◌+◌, ℤ, String, ◌≡◌, is_some, if◌then◌else◌}
use acp_kv.Hlc.{Hlc}
use acp_kv.Prelude.Map.{length-insert}
use acp_kv.Storage.{Bytes, Store, get, size, put_with_hlc, stamped}

-- A write makes the store larger by one exactly where its key was absent.
pub size-put_with_hlc :
    (now : ℤ) (key : String) (value : Bytes) (node_id : String) (t : Hlc) (s : Store)
    → size (put_with_hlc now key value node_id t s).1
      ≡ (if is_some (get key s) then size s else size s + 1)
unfolding size put_with_hlc get
size-put_with_hlc now key value node_id t s =
    length-insert key (stamped now value node_id t) s.entries
