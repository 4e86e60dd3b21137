-- ===== src/Replication/Tests.antt =====
-- Instances for the coordinator.
use acp_kv.Prelude.{
  ◌++◌, inl, inr, String, false, List, [], if◌then◌else◌, length, ltb_ℤ, none, pos, refl, some,
  str_eq, suc, true, ◌&&◌, ◌||◌, ◌∷◌, ◌≡◌, ◌≢◌, ◌⊎◌,
}
use acp_kv.Examples.{server}
use acp_kv.Failure.{rpc}
use acp_kv.Replication.{
  replicate, Coordinator, Dial, ReplicaValue, contains, get_most_recent, new_coordinator,
  query_replicas, reconcile_peers, replica_of,
}
use acp_kv.Prelude.Map.{keys}
use acp_kv.Config.Load.{pod_addr}
use acp_kv.Replication.Discovery.{Resolver, run_discovery, service_name}
use acp_kv.Replication.Rounds.{IsRound, run_discovery_lem}
use acp_kv.Replication.Peers.{IsPaired, can_dial, is_connected, reconcile_peers_lem}

abbrev coordinator : Coordinator
coordinator = server.coordinator

-- A resolver that knows no node n4.
abbrev dial : Dial
dial = λ a. if str_eq a "dns:///n4" then some (rpc "no such host") else none

paired : IsPaired coordinator
paired = λ a. refl

reconcile_peers_lem_example :
    (is_connected "n3" (reconcile_peers dial ("n3" ∷ "n4" ∷ []) coordinator)
      ≡ (contains "n3" ("n3" ∷ "n4" ∷ []) && (is_connected "n3" coordinator || can_dial dial "n3")))
    × IsPaired (reconcile_peers dial ("n3" ∷ "n4" ∷ []) coordinator)
reconcile_peers_lem_example = reconcile_peers_lem dial ("n3" ∷ "n4" ∷ []) "n3" coordinator paired

-- A resolver that knows the pods acp-node-0 and acp-node-1, by one address each, and a name of the
-- service that is no pod.
abbrev resolver : Resolver
resolver = record {
  lookup_host = λ name. inr ("10.0.0.1" ∷ "10.0.0.2" ∷ []);
  lookup_addr = λ ip. inr ((if str_eq ip "10.0.0.1" then "acp-node-0" else "acp-node-1") ∷ []);
  has_part = λ name pattern. true;
  split = λ name separator. name ∷ "acp-headless" ∷ [];
}

abbrev own : String
own = pod_addr "acp-node-0" "acp-headless" "default"

abbrev other : String
other = pod_addr "acp-node-1" "acp-headless" "default"

abbrev ticks : List (Resolver × Dial)
ticks =
    (resolver, dial) ∷ (record resolver { lookup_host = λ name. inl (rpc "no answer") }, dial) ∷ []

-- The first round drops the peers that are no pods and connects to the other pod; the second fails.
discovered_other :
    keys (run_discovery "acp-node-0" "acp-headless" "default" ticks coordinator).peers ≡ other ∷ []
unfolding run_discovery reconcile_peers keys contains acp_kv.Replication.remove_peer
    acp_kv.Replication.add_peer acp_kv.Prelude.Map.lookup acp_kv.Prelude.Map.insert
    acp_kv.Prelude.Map.remove new_coordinator
discovered_other = refl

-- A third round, in which the lookup succeeds again.
run_discovery_lem_example :
    let c = run_discovery "acp-node-0" "acp-headless" "default" ticks coordinator in
    let c' =
      run_discovery "acp-node-0" "acp-headless" "default"
        (ticks ++ (resolver, dial) ∷ [])
        coordinator in
    IsPaired c'
    × IsRound resolver dial "acp-node-0" "acp-headless" "default" other
        (resolver.lookup_host (service_name "acp-headless" "default"))
        c
        c'
run_discovery_lem_example =
    run_discovery_lem ticks resolver dial "acp-node-0" "acp-headless" "default" other coordinator
      paired
