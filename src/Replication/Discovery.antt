-- ===== src/Replication/Discovery.antt =====
-- internal/replication/coordinator.go: the peers that DNS knows, and the rounds of discovery. The
-- resolver of the Go library is a parameter, which may answer differently in each round.
use Prim.Native.String.{◌++◌ as str_append}
use acp_kv.Prelude.{
  Bool, List, Option, String, [], if◌then◌else◌, none, some, str_eq, ◌∷◌, ◌⊎◌, inl, inr,
}
use acp_kv.Config.Load.{pod_addr}
use acp_kv.Failure.{Error, dns_failure}
use acp_kv.Replication.{Coordinator, Dial, reconcile_peers}

-- net.LookupHost, net.LookupAddr, strings.Contains and strings.Split.
pub record Resolver : Type 0 where
  pub lookup_host : String → Error ⊎ List String
  pub lookup_addr : String → Error ⊎ List String
  pub has_part : String → String → Bool
  pub split : String → String → List String

-- fmt.Sprintf("%s.%s.svc.cluster.local", headlessSvc, namespace)
abbrev pub service_name : String → String → String
service_name headless_svc namespace =
    str_append headless_svc (str_append "." (str_append namespace ".svc.cluster.local"))

-- fmt.Sprintf(".%s.%s.svc.cluster.local", headlessSvc, namespace)
abbrev pub headless_pattern : String → String → String
headless_pattern headless_svc namespace = str_append "." (service_name headless_svc namespace)

-- "find the statefulset pod name": the first name that has the pattern, "" where none has.
unfoldable pub find_name : Resolver → String → List String → String
find_name r pattern [] = ""
find_name r pattern (name ∷ names) =
    let rest = find_name r pattern names in if r.has_part name pattern then name else rest

-- The address of the pod that the parts of a name begin with; the node itself is skipped.
unfoldable pub peer_of_parts : String → String → String → List String → Option String
peer_of_parts node_id headless_svc namespace [] = none
peer_of_parts node_id headless_svc namespace (pod_name ∷ []) = none
peer_of_parts node_id headless_svc namespace (pod_name ∷ part ∷ parts) =
    if str_eq pod_name node_id then none else some (pod_addr pod_name headless_svc namespace)

-- The peer at an address, from what the reverse lookup says; `none` where the loop continues.
unfoldable pub peer_of_names :
    Resolver → String → String → String → Error ⊎ List String → Option String
unfolding find_name peer_of_parts
peer_of_names r node_id headless_svc namespace (inl e) = none
peer_of_names r node_id headless_svc namespace (inr []) = none
peer_of_names r node_id headless_svc namespace (inr (name ∷ names)) =
    let pod_fqdn = find_name r (headless_pattern headless_svc namespace) (name ∷ names) in
    if str_eq pod_fqdn ""
    then none
    else peer_of_parts node_id headless_svc namespace (r.split pod_fqdn ".")

unfoldable pub append_peer : Option String → List String → List String
append_peer none peers = peers
append_peer (some peer) peers = peer ∷ peers

-- The loop of `DiscoverPeersDNS` over the addresses.
unfoldable pub peers_at : Resolver → String → String → String → List String → List String
unfolding peer_of_names append_peer
peers_at r node_id headless_svc namespace [] = []
peers_at r node_id headless_svc namespace (ip ∷ ips) =
    append_peer (peer_of_names r node_id headless_svc namespace (r.lookup_addr ip))
      (peers_at r node_id headless_svc namespace ips)

unfoldable pub discovered :
    Resolver → String → String → String → Error ⊎ List String → Error ⊎ List String
unfolding peers_at
discovered r node_id headless_svc namespace (inl e) =
    inl (dns_failure (service_name headless_svc namespace) e)
discovered r node_id headless_svc namespace (inr ips) =
    inr (peers_at r node_id headless_svc namespace ips)

-- DiscoverPeersDNS
unfoldable pub discover_peers_dns : Resolver → String → String → String → Error ⊎ List String
unfolding discovered
discover_peers_dns r node_id headless_svc namespace =
    discovered r node_id headless_svc namespace
      (r.lookup_host (service_name headless_svc namespace))

-- What a round of `StartPeerDiscovery` does with its result: an error is logged.
unfoldable pub apply_discovered : Dial → Error ⊎ List String → Coordinator → Coordinator
apply_discovered dial (inl e) c = c
apply_discovered dial (inr peers) c = reconcile_peers dial peers c

-- The ticks of Coordinator.StartPeerDiscovery, until its context is done.
unfoldable pub run_discovery :
    String → String → String → List (Resolver × Dial) → Coordinator → Coordinator
unfolding apply_discovered discover_peers_dns
run_discovery node_id headless_svc namespace [] c = c
run_discovery node_id headless_svc namespace ((r, dial) ∷ ticks) c =
    run_discovery node_id headless_svc namespace ticks
      (apply_discovered dial (discover_peers_dns r node_id headless_svc namespace) c)
