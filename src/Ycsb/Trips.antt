-- ===== src/Ycsb/Trips.antt =====
-- What YCSB reads back of what it inserted (go-ycsb-vendor/db/acp/db.go, internal/server/server.go).
use text.Mathlib.TextLemmas.{append_cancel_left}
use Prim.Native.String.{◌++◌ as str_append}
use acp_kv.Prelude.{
  Bool, List, String, [], arith, false, if◌then◌else◌, inl, inr, is_some, length, none, pos, refl,
  some, str_eq, str_eq_iff, true, ◌==◌, ◌∙◌, ◌∷◌, ◌≡◌, ◌||◌, ◌&&◌, ap, sym, ◌⊎◌, Option-cases,
}
use acp_kv.Failure.{Error}
use acp_kv.Prelude.Map.{Map, insert, lookup, lookup-insert}
use acp_kv.Proto.{GetRequest, GetResponse, PutRequest, answered}
use acp_kv.Replication.{contains}
use acp_kv.Server.{Server, World, get, get_r, put}
use acp_kv.Server.Read.{get_alone_answer, IsValueAnswer, local_value}
use acp_kv.Server.Write.{stamp_of, store-put}
use acp_kv.Staleness.{is_stale}
use acp_kv.Storage.{Bytes, VersionedValue, stamped}
use acp_kv.Ycsb.{
  Codec, answer_read, decoded, filter_fields, get_row_key, insert_request, read, read_request,
  requested,
}

-- What the encoder makes of a row decodes to a row with the same fields.
abbrev pub IsCodec : Codec → Type 0
IsCodec codec =
    (values : Map Bytes) (encoded : Bytes)
    → codec.marshal values ≡ inr encoded
    → (row : Map Bytes) × (codec.unmarshal encoded ≡ inr row)
      × ((field : String) → lookup field row ≡ lookup field values)

filter_fields_lem :
    (fields : List String) (row filtered : Map Bytes) (j : String)
    → lookup j (filter_fields fields row filtered)
      ≡ (if contains j fields && is_some (lookup j row) then lookup j row else lookup j filtered)
unfolding filter_fields contains
filter_fields_lem [] row filtered j = refl
filter_fields_lem (k ∷ fields) row filtered j = elim (Option-cases (lookup k row)) [
  | inl absent ↦
      rw (absent, filter_fields)
        (ground (arith, filter_fields_lem fields row filtered j, str_eq_iff k j, absent))
  | inr (v, there) ↦
      rw (there, filter_fields)
        (ground (
          arith,
          filter_fields_lem fields row (insert k v filtered) j,
          lookup-insert k j v filtered,
          str_eq_iff k j,
          there,
        ))
]

-- A field that was asked for, or any field where none was.
abbrev pub is_requested : String → List String → Bool
is_requested field fields = (length fields == 0) || contains field fields

requested_lem :
    (fields : List String) (row : Map Bytes) (j : String)
    → lookup j (requested fields row) ≡ (if is_requested j fields then lookup j row else none)
unfolding requested contains lookup
requested_lem fields row j = ground (arith, filter_fields_lem fields row [] j)

-- Rows of one table have different keys.
pub get_row_key_inj : (table j k : String) → get_row_key table j ≡ get_row_key table k → j ≡ k
unfolding get_row_key
get_row_key_inj table j k e =
    append_cancel_left ":" j k (append_cancel_left table (str_append ":" j) (str_append ":" k) e)

-- What a read answers that found its row: the fields that were asked for, with the values inserted.
abbrev pub ReadsRow : Error ⊎ Map Bytes → List String → Map Bytes → Type 0
ReadsRow result fields values =
    (row : Map Bytes) × (result ≡ inr row)
    × ((field : String)
        → lookup field row ≡ (if is_requested field fields then lookup field values else none))

read_value :
    (codec : Codec) (fields : List String) (resp : GetResponse) (values : Map Bytes)
    (encoded : Bytes)
    → IsCodec codec
    → codec.marshal values ≡ inr encoded
    → IsValueAnswer resp
    → resp.value ≡ encoded
    → ReadsRow (read codec fields (answered resp)) fields values
unfolding read answer_read decoded
read_value codec fields resp values encoded round made (found, fine) same =
    let (row, back, fields_same) = round values encoded made in
    (
      requested fields row,
      rw (fine, read, answer_read) (rw found (rw (same, back) refl)),
      λ field. requested_lem fields row field ∙ rw fields_same refl,
    )

sum_cases : (o : Error ⊎ Bytes) → ((e : Error) × (o ≡ inl e)) ⊎ ((b : Bytes) × (o ≡ inr b))
sum_cases (inl e) = inl (e, refl)
sum_cases (inr b) = inr (b, refl)

insert_request_made :
    (codec : Codec) (table key : String) (values : Map Bytes) (req : PutRequest)
    → insert_request codec table key values ≡ inr req
    → (codec.marshal values ≡ inr req.value) × (req.key ≡ get_row_key table key)
unfolding insert_request
insert_request_made codec table key values req asked = elim (sum_cases (codec.marshal values)) [
  | inl (e, refused) ↦ absurd (cc (rw (refused, insert_request) at asked))
  | inr (b, made) ↦
      let built : PutRequest = record { key = get_row_key table key; value = b } in
      let result : Error ⊎ PutRequest = inr built in
      let e : result ≡ inr req = rw (made, insert_request) at asked in
      let q : built ≡ req = cc (e) in
      (made ∙ ap (λ (r : PutRequest). inr r.value) q, sym (ap (λ (r : PutRequest). r.key) q))
]

put_provider :
    (x : World) (req : PutRequest) (s : Server)
    → get_r (put x req s).1.quorum_provider ≡ get_r s.quorum_provider
unfolding put
put_provider x req s = refl

put_fresh :
    (x y : World) (req : PutRequest) (s : Server)
    → is_stale s.staleness_detector (stamp_of x s) y.first ≡ false
    → is_stale
        (put x req s).1.staleness_detector
        (stamped x.second req.value s.node_id (stamp_of x s)).hlc
        y.first
      ≡ false
unfolding put stamped
put_fresh x y req s fresh = fresh

-- A read at a node whose reads ask no other, which holds the row and finds it fresh.
read_answer :
    (codec : Codec) (fields : List String) (req : GetRequest) (s : Server) (y : World)
    (v : VersionedValue) (values : Map Bytes) (encoded : Bytes)
    → IsCodec codec
    → codec.marshal values ≡ inr encoded
    → local_value req s ≡ some v
    → get_r s.quorum_provider ≡ pos 1
    → is_stale s.staleness_detector v.hlc y.first ≡ false
    → v.value ≡ encoded
    → ReadsRow (read codec fields (answered (get y req s).0)) fields values
read_answer codec fields req s y v values encoded round made held one fresh same =
    elim (get_alone_answer y req s one) [
      | inl (absent, _) ↦ absurd (cc (absent, held))
      | inr (inl (u, there, stale, _)) ↦
          let e : u ≡ v = cc (there, held) in absurd (cc (stale, fresh, e))
      | inr (inr (u, there, _, fine, value, _)) ↦
          let e : u ≡ v = cc (there, held) in
          read_value codec fields (get y req s).0 values encoded round made fine
            (value ∙ ap (λ (w : VersionedValue). w.value) e ∙ same)
    ]

-- A row that was inserted at a node whose reads ask no other node reads back from it, as the fields that
-- were asked for, or all where none were, with the values inserted, whether or not the insert succeeded.
-- The insert reached the node, the codec round-trips, and the row is not too old at the read.
pub read-insert :
    (codec : Codec) (x y : World) (table key : String) (values : Map Bytes) (fields : List String)
    (req : PutRequest) (s : Server)
    → IsCodec codec
    → insert_request codec table key values ≡ inr req
    → get_r s.quorum_provider ≡ pos 1
    → is_stale s.staleness_detector (stamp_of x s) y.first ≡ false
    → ReadsRow
        (read codec fields (answered (get y (read_request table key) (put x req s).1).0))
        fields
        values
read-insert codec x y table key values fields req s round asked one fresh =
    let (made, key_same) = insert_request_made codec table key values req asked in
    let here : str_eq req.key (get_row_key table key) ≡ true =
      (str_eq_iff req.key (get_row_key table key)).1 key_same in
    let written = store-put x req s (get_row_key table key) ∙ rw here refl in
    read_answer codec fields (read_request table key) (put x req s).1 y
      (stamped x.second req.value s.node_id (stamp_of x s)) values req.value round made written
      (put_provider x req s ∙ one) (put_fresh x y req s fresh) (unfold stamped in refl)
