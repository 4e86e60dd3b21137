-- ===== src/Ycsb.antt =====
-- go-ycsb-vendor/db/acp/db.go: the binding through which YCSB drives the store. The JSON codec is a
-- parameter; a connection stands for its address, and what its calls reply is an argument.
pub mod Trips
mod Tests
use Prim.Native.String.{◌++◌ as str_append}
use acp_kv.Prelude.{
  List, Option, String, [], get_elem?, if◌then◌else◌, inl, inr, length, none, not, some, ℕ, ◌%◌,
  ◌+◌, ◌==◌, ◌∷◌, ◌⊎◌, map,
}
use acp_kv.Failure.{
  Error, connect_failure, decode_failure, delete_unsupported, encode_failure, get_error,
  get_failure, put_error, put_failure, put_unsuccessful, scan_unsupported,
}
use acp_kv.Prelude.Map.{Map, insert, lookup}
use acp_kv.Proto.{GetRequest, GetResponse, PutRequest, PutResponse, Reply, answered, failed}
use acp_kv.Replication.{Dial}
use acp_kv.Storage.{Bytes}

-- json.Marshal and json.Unmarshal of a map of fields.
pub record Codec : Type 0 where
  pub marshal : Map Bytes → Error ⊎ Bytes
  pub unmarshal : Bytes → Error ⊎ Map Bytes

pub record AcpDb : Type 0 where
  pub clients : List String
  pub next_client : ℕ

-- The loop of `Create` over the addresses that it split and trimmed, with those connected so far.
unfoldable pub connect_clients : Dial → List String → List String → Error ⊎ AcpDb
connect_clients dial opened [] = inr (record { clients = opened; next_client = 0 })
connect_clients dial opened (addr ∷ addrs) =
    let rest = connect_clients dial (acp_kv.Prelude.◌++◌ opened (addr ∷ [])) addrs in
    elim (dial addr) [ some e ↦ inl (connect_failure addr e) | none ↦ rest ]

-- acpCreator.Create, from the property "acp.endpoints".
unfoldable pub create :
    Dial → (String → String → List String) → (String → String) → String → Error ⊎ AcpDb
unfolding connect_clients
create dial split trim_space endpoints =
    connect_clients dial [] (map trim_space (split endpoints ","))

-- acpDB.getClient; `none` is a panic, where there is no client.
unfoldable pub get_client : AcpDb → Option String × AcpDb
get_client db = (
  get_elem? db.clients db.next_client,
  record db { next_client = (db.next_client + 1) % length db.clients },
)

-- fmt.Sprintf("%s:%s", table, key)
unfoldable pub get_row_key : String → String → String
get_row_key table key = str_append table (str_append ":" key)

-- "filter to requested fields if specified": the fields that the row has, in a new map.
unfoldable pub filter_fields : List String → Map Bytes → Map Bytes → Map Bytes
filter_fields [] row filtered = filtered
filter_fields (field ∷ fields) row filtered =
    filter_fields fields row
      (elim (lookup field row) [ none ↦ filtered | some value ↦ insert field value filtered ])

unfoldable pub requested : List String → Map Bytes → Map Bytes
unfolding filter_fields
requested fields row = if length fields == 0 then row else filter_fields fields row []

unfoldable pub decoded : List String → Error ⊎ Map Bytes → Error ⊎ Map Bytes
unfolding requested
decoded fields (inl e) = inl (decode_failure e)
decoded fields (inr row) = inr (requested fields row)

unfoldable pub answer_read : Codec → List String → GetResponse → Option Error → Error ⊎ Map Bytes
unfolding decoded
answer_read codec fields resp (some e) = inl (get_error e)
answer_read codec fields resp none =
    if not resp.found then inr [] else decoded fields (codec.unmarshal resp.value)

-- acpDB.Read, from the reply to its call.
unfoldable pub read : Codec → List String → Reply GetResponse → Error ⊎ Map Bytes
unfolding answer_read
read codec fields (failed e) = inl (get_failure e)
read codec fields (answered resp) = answer_read codec fields resp resp.error

abbrev pub read_request : String → String → GetRequest
read_request table key = record { key = get_row_key table key }

-- acpDB.Insert: the request, or the error of the encoder.
unfoldable pub insert_request : Codec → String → String → Map Bytes → Error ⊎ PutRequest
insert_request codec table key values = elim (codec.marshal values) [
  | inl e ↦ inl (encode_failure e)
  | inr encoded ↦ inr (record { key = get_row_key table key; value = encoded })
]

-- What `Insert` returns, from the reply to its call.
unfoldable pub insert_result : Reply PutResponse → Option Error
insert_result (failed e) = some (put_failure e)
insert_result (answered resp) = elim resp.error [
  | some e ↦ some (put_error e)
  | none ↦ if not resp.success then some put_unsuccessful else none
]

-- acpDB.Insert and acpDB.Update, which calls it: `call` is the call of the client.
unfoldable pub insert_row :
    Codec → (PutRequest → Reply PutResponse) → String → String → Map Bytes → Option Error
unfolding insert_request insert_result
insert_row codec call table key values = elim (insert_request codec table key values) [
  | inl e ↦ some e
  | inr req ↦ insert_result (call req)
]

unfoldable pub update_row :
    Codec → (PutRequest → Reply PutResponse) → String → String → Map Bytes → Option Error
unfolding insert_row
update_row codec call table key values = insert_row codec call table key values

-- acpDB.Scan and acpDB.Delete
unfoldable pub scan : Error ⊎ List (Map Bytes)
scan = inl scan_unsupported

unfoldable pub delete_row : Option Error
delete_row = some delete_unsupported
