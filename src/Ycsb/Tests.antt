-- ===== src/Ycsb/Tests.antt =====
-- Instances for the YCSB binding, with a codec of rows that have the one field f.
use acp_kv.Prelude.{
  Bool-cases, [], arith, false, if◌then◌else◌, inl, inr, pos, refl, str_eq, str_eq_iff, ◌∷◌, ◌≡◌,
  ◌⊎◌,
}
use acp_kv.Examples.{config, server, world}
use acp_kv.Failure.{Error, rpc}
use acp_kv.Prelude.Map.{Map, lookup}
use acp_kv.Proto.{PutRequest, answered}
use acp_kv.Server.{Server, fixed, get, get_r, put}
use acp_kv.Server.Write.{stamp_of}
use acp_kv.Staleness.{is_stale}
use acp_kv.Storage.{Bytes}
use acp_kv.Ycsb.{Codec, get_row_key, insert_request, read, read_request}
use acp_kv.Ycsb.Trips.{IsCodec, ReadsRow, read-insert}

abbrev marshal_f : Map Bytes → Error ⊎ Bytes
marshal_f [] = inl (rpc "no field")
marshal_f ((k, v) ∷ []) = if str_eq k "f" then inr v else inl (rpc "another field")
marshal_f ((k, v) ∷ f ∷ fs) = inl (rpc "more fields")

abbrev codec : Codec
codec = record { marshal = marshal_f; unmarshal = λ b. inr (("f", b) ∷ []) }

codec-IsCodec : IsCodec codec
unfolding lookup
codec-IsCodec [] encoded e = absurd (cc (e))
codec-IsCodec ((k, v) ∷ []) encoded e = elim (Bool-cases (str_eq k "f")) [
  | inl same ↦
      let q : v ≡ encoded = ground (arith, e, same) in
      (("f", encoded) ∷ [], refl, λ field. rw ((str_eq_iff k "f").0 same, q) refl)
  | inr other ↦ absurd (ground (arith, e, other))
]
codec-IsCodec ((k, v) ∷ f ∷ fs) encoded e = absurd (cc (e))

abbrev row : Map Bytes
row = ("f", 4 ∷ 2 ∷ []) ∷ []

abbrev alone : Server
alone = record server { quorum_provider = fixed (record config { r = pos 1; w = pos 3 }) }

abbrev request : PutRequest
request = record { key = get_row_key "usertable" "user1"; value = 4 ∷ 2 ∷ [] }

asked : insert_request codec "usertable" "user1" row ≡ inr request
unfolding insert_request
asked = refl

one : get_r alone.quorum_provider ≡ pos 1
unfolding get_r acp_kv.Config.get_r
one = refl

fresh : is_stale alone.staleness_detector (stamp_of world alone) world.first ≡ false
unfolding is_stale acp_kv.Hlc.age acp_kv.Hlc.now_hlc
fresh = refl

read-insert_example :
    ReadsRow
      (read codec
        ("f" ∷ [])
        (answered (get world (read_request "usertable" "user1") (put world request alone).1).0))
      ("f" ∷ [])
      row
read-insert_example =
    read-insert codec world world "usertable" "user1" row ("f" ∷ []) request alone codec-IsCodec
      asked one fresh
