-- ===== src/Cluster/Tests.antt =====
-- An instance of three nodes: n1 writes and n2 reads; the calls to n3 are lost at the write, and those
-- to n1 at the read.
use mathlib.Core.List.Perm
use mathlib.Core.List.{Perm}
use acp_kv.Prelude.{
  String, [], arith, false, if◌then◌else◌, length, pos, refl, some, str_eq, true, ◌+ℤ◌, ◌<ℤ◌, ◌∷◌,
  ◌≡◌, ◌≢◌, ◌≤ℤ◌, List,
}
use acp_kv.Cluster.{Network, after_put, lost, served}
use acp_kv.Prelude.Map.{keys}
use acp_kv.Cluster.Holders.{write_world, written}
use acp_kv.Cluster.Intersection.{get_sees_put}
use acp_kv.Cluster.Responders.{read_world}
use acp_kv.Examples.{server, world, put_k, get_k, clock_of}
use acp_kv.Failure.{rpc}
use acp_kv.Hlc.{Hlc, happens_before}
use acp_kv.Replication.{IsDuplicateFree, contains}
use acp_kv.Server.{get, put, get_r, get_w, Server, World}
use acp_kv.Server.Read.{IsValueAnswer}

abbrev node : String → Server
node a = record server { node_id = a; hlc_clock = clock_of a }

abbrev writing : Network
writing = record {
  nodes = node;
  fates = λ a. if str_eq a "n3" then lost else served;
  worlds = λ a. world;
  timed_out = rpc "deadline exceeded";
}

abbrev reading : Network
reading = record writing { fates = λ a. if str_eq a "n3" then served else lost }

abbrev nodes_of : String → List String → List String
nodes_of a rest = a ∷ rest

abbrev after : Network
after = record reading { nodes = after_put writing world put_k "n1" ("n2" ∷ "n3" ∷ []) }

reordered : Perm (nodes_of "n1" ("n2" ∷ "n3" ∷ [])) (nodes_of "n2" ("n1" ∷ "n3" ∷ []))
reordered = Perm.swap "n2" "n1" ("n3" ∷ [])

apart : contains "n1" ("n2" ∷ "n3" ∷ []) ≡ false
unfolding contains
apart = refl

connected : length (node "n1").coordinator.peers ≢ 0
connected = omega arith

done :
    (put (write_world writing "n1" ("n2" ∷ "n3" ∷ []) world put_k) put_k (node "n1")).0.success
    ≡ true
unfolding put acp_kv.Replication.replicate acp_kv.Replication.collect_acks
    acp_kv.Replication.replicate_to acp_kv.Cluster.on_replicate acp_kv.Server.accept get_w
    acp_kv.Config.get_w
done = refl

reads_two : pos 2 ≤ℤ get_r (after.nodes "n2").quorum_provider
unfolding get_r after_put contains acp_kv.Cluster.after_replicate acp_kv.Server.accept
    acp_kv.Config.get_r
reads_two = omega arith

overlap :
    pos (length (nodes_of "n2" ("n1" ∷ "n3" ∷ [])))
    <ℤ get_w (node "n1").quorum_provider +ℤ get_r (after.nodes "n2").quorum_provider
unfolding ◌+ℤ◌ get_w acp_kv.Config.get_w get_r after_put contains acp_kv.Cluster.after_replicate
    acp_kv.Server.accept acp_kv.Config.get_r
overlap = omega arith

answered_value :
    IsValueAnswer (get (read_world after world ("n1" ∷ "n3" ∷ [])) get_k (after.nodes "n2")).0
unfolding get get_r after_put contains acp_kv.Cluster.after_replicate acp_kv.Server.accept
    acp_kv.Config.get_r acp_kv.Replication.query_replicas acp_kv.Replication.collect_values
    acp_kv.Cluster.on_get_local acp_kv.Server.get_local acp_kv.Storage.get acp_kv.Prelude.Map.lookup
    acp_kv.Replication.get_most_recent acp_kv.Storage.put_with_hlc acp_kv.Prelude.Map.insert
    acp_kv.Staleness.check_strict acp_kv.Hlc.age acp_kv.Hlc.from_proto acp_kv.Hlc.happens_after
    happens_before acp_kv.Hlc.now_hlc acp_kv.Hlc.to_proto acp_kv.Hlc.update acp_kv.Prelude.add64
    acp_kv.Prelude.sub64 acp_kv.Server.log_write put acp_kv.Staleness.is_stale
    acp_kv.Storage.stamped
answered_value = (refl, refl)

get_sees_put_example :
    (t : Hlc) × ((get (read_world after world ("n1" ∷ "n3" ∷ [])) get_k (after.nodes "n2")).0.hlc
      ≡ some t)
    × (happens_before t (written writing "n1" ("n2" ∷ "n3" ∷ []) world put_k) ≡ false)
get_sees_put_example =
    get_sees_put writing "n1" ("n2" ∷ "n3" ∷ []) world put_k reading "n2" ("n1" ∷ "n3" ∷ []) world
      apart reordered connected done reads_two overlap answered_value
