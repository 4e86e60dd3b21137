-- ===== src/Cluster/Intersection.antt =====
-- The promise of intersecting quorums: a read sees every write that was acknowledged before it.
use mathlib.Core.List.{Perm}
use acp_kv.Prelude.{
  List, String, arith, false, inl, inr, pos, some, true, ◌∷◌, ◌≡◌, ◌≤ℤ◌, length, ◌+ℤ◌, ◌<ℤ◌, ◌≢◌,
  +ℤ_parts,
}
use acp_kv.Cluster.{Network, after_put}
use acp_kv.Cluster.Holders.{holders-count, holds, holds-get, write_world, written}
use acp_kv.Cluster.Pigeonhole.{count_peers-perm, pigeonhole}
use acp_kv.Cluster.Responders.{
  candidate-written, get_request, read_world, responders-le-count, responds,
}
use acp_kv.Cluster.Values.{query_replicas-values}
use acp_kv.Hlc.{happens_before, Hlc}
use acp_kv.Proto.{PutRequest}
use acp_kv.Replication.{contains}
use acp_kv.Replication.Counting.{count_peers}
use acp_kv.Server.{put, World, Server, get, get_r, get_w}
use acp_kv.Server.Read.{IsValueAnswer}
use acp_kv.Server.Read.Quorum.{get_quorum_cases}
use acp_kv.Server.Write.{put_answer}

-- The nodes that hold a successful write are a write quorum.
holders-quorum :
    (net : Network) (writer : String) (peers : List String) (x : World) (req : PutRequest)
    → contains writer peers ≡ false
    → length (net.nodes writer).coordinator.peers ≢ 0
    → (put (write_world net writer peers x req) req (net.nodes writer)).0.success ≡ true
    → get_w (net.nodes writer).quorum_provider
      ≤ℤ pos (count_peers (holds net writer peers x req) (writer ∷ peers))
holders-quorum net writer peers x req apart connected done = ground (
  arith,
  holders-count net writer peers x req apart,
  put_answer (write_world net writer peers x req) req (net.nodes writer),
)

-- A `Put` that succeeded at `writer` with a connected peer is seen by every later `Get` of the same
-- key, of a quorum of two or more, at any node: where it answers with a value, that value's timestamp
-- is not before the timestamp of the `Put`. Each call in between may be lost, or its answer. The write
-- and read quorums together exceed the number of nodes, and nothing else writes in between.
pub get_sees_put :
    (net : Network) (writer : String) (peers : List String) (x : World) (req : PutRequest)
    (later : Network) (reader : String) (peers' : List String) (y : World)
    → let after : Network = record later { nodes = after_put net x req writer peers } in
      let s = net.nodes writer in
      let s' = after.nodes reader in
      contains writer peers ≡ false
      → Perm (writer ∷ peers) (reader ∷ peers')
      → length s.coordinator.peers ≢ 0
      → (put (write_world net writer peers x req) req s).0.success ≡ true
      → pos 2 ≤ℤ get_r s'.quorum_provider
      → pos (length (reader ∷ peers')) <ℤ get_w s.quorum_provider +ℤ get_r s'.quorum_provider
      → IsValueAnswer (get (read_world after y peers') (get_request req.key) s').0
      → (t : Hlc) × ((get (read_world after y peers') (get_request req.key) s').0.hlc ≡ some t)
        × (happens_before t (written net writer peers x req) ≡ false)
get_sees_put net writer peers x req later reader peers' y apart same connected done two overlap ok =
    elim (get_quorum_cases world (get_request req.key) s' two) [
      | inl (absent, _) ↦ absurd (cc)
      | inr (r, one, latest, found, rest, queried) ↦
          let (values, enough) =
            query_replicas-values world.on_get_local peers' req.key (get_r s'.quorum_provider)
              s'.coordinator s'.metrics two queried in
          let (a, c, has, answers) =
            pigeonhole (holds net writer peers x req) (responds after reader peers' req.key)
              (reader ∷ peers')
              (ground (
                arith,
                holders-quorum net writer peers x req apart connected done,
                count_peers-perm (holds net writer peers x req) (writer ∷ peers) (reader ∷ peers')
                    same,
                responders-le-count after reader peers' req.key,
                +ℤ_parts (get_w s.quorum_provider) (get_r s'.quorum_provider),
                enough,
                overlap,
              )) in
          let (v, stored, stamp) = holds-get net writer peers x req a has in
          (
            r.hlc,
            (rest ok.1).0,
            rw (← stamp) (
                candidate-written after y reader peers' req.key a v r stored c answers values
                  latest),
          )
    ]
  where
    after : Network
    after = record later { nodes = after_put net x req writer peers }

    s : Server
    s = net.nodes writer

    s' : Server
    s' = after.nodes reader

    world : World
    world = read_world after y peers'
