-- ===== src/Replication.antt =====
-- internal/replication/coordinator.go: the peers of a node, and the calls that it makes to them.
-- The parallel calls of `Replicate` and `QueryReplicas` are given by what each peer replies and by
-- the order in which the replies arrive. Logging is left out.
pub mod Connections
pub mod Peers
pub mod Discovery
pub mod Pods
pub mod Rounds
pub mod Counting
pub mod Recent
mod Tests
unfoldable pub use Connections.*
use acp_kv.Prelude.{
  Bool, List, Option, String, [], false, if◌then◌else◌, is_some, length, ltb_ℤ, none, pos, some,
  str_eq, true, ℕ, ℤ, ◌++◌, ◌+◌, ◌==◌, ◌||◌, ◌∷◌,
}
use acp_kv.Failure.{
  Error, insufficient_acks, insufficient_replicas, insufficient_responses, peer_failure,
  peer_reported,
}
use acp_kv.Hlc.{Hlc, from_proto, happens_after, to_proto, zero_hlc}
use acp_kv.Metrics.{Metrics}
use acp_kv.Prelude.Map.{Map, lookup, insert, remove, keys}
use acp_kv.Proto.{
  GetRequest, GetResponse, ReplicateRequest, ReplicateResponse, Reply, answered, failed,
}
use acp_kv.Storage.{Bytes}

pub record ReplicateResult : Type 0 where
  pub peer_addr : String
  pub success : Bool
  pub latency : ℤ
  pub error : Option Error

-- A peer's reply to a call, and how long the call took.
pub record Exchange (A : Type 0) : Type 0 where
  pub reply : Reply A
  pub latency : ℤ

count_failure : Metrics → Metrics
count_failure m = record m { replicate_acks_failure = m.replicate_acks_failure + 1 }

-- The body of the goroutine of `Replicate` for one peer.
unfoldable pub replicate_to :
    String → Exchange ReplicateResponse → Metrics → ReplicateResult × Metrics
unfolding count_failure
replicate_to addr x m =
    let m' = record m { replicate_latency = (addr, x.latency) ∷ m.replicate_latency } in
    elim x.reply [
      | failed e ↦ (
        record { peer_addr = addr; success = false; latency = x.latency; error = some e },
        record (count_failure m') { errors_rpc = m.errors_rpc + 1 },
      )
      | answered resp ↦
          if resp.success
          then (
            record { peer_addr = addr; success = true; latency = x.latency; error = none },
            record m' { replicate_acks_success = m.replicate_acks_success + 1 },
          )
          else (
            record {
              peer_addr = addr;
              success = false;
              latency = x.latency;
              error = some (peer_reported resp.error);
            },
            count_failure m',
          )
    ]

pub record Acks : Type 0 where
  pub success_count : ℕ
  pub all_results : List ReplicateResult
  pub metrics : Metrics

-- "collect results", over the peers in the order in which their replies arrive
unfoldable pub collect_acks : (String → Exchange ReplicateResponse) → List String → Acks → Acks
collect_acks call [] acks = acks
collect_acks call (addr ∷ addrs) acks =
    let (result, m) = replicate_to addr (call addr) acks.metrics in
    collect_acks call addrs (record {
      success_count = if result.success then acks.success_count + 1 else acks.success_count;
      all_results = acks.all_results ++ result ∷ [];
      metrics = m;
    })

-- Coordinator.Replicate. `arrivals` lists the connected peers in the order of their replies, and
-- `call` is what each replies to the request.
unfoldable pub replicate :
    (ReplicateRequest → String → Exchange ReplicateResponse)
    → List String
    → String
    → Bytes
    → ℤ
    → ℤ
    → Hlc
    → ℤ
    → Coordinator
    → Metrics
    → ℕ × List ReplicateResult × Option Error × Metrics
replicate call arrivals key value version timestamp hlc required_acks c m =
    let request : ReplicateRequest = record {
      key = key;
      value = value;
      version = version;
      timestamp = timestamp;
      source_node_id = c.node_id;
      hlc = to_proto hlc;
    } in
    let acks =
      collect_acks (call request) arrivals
        (record { success_count = 1; all_results = []; metrics = m }) in
    if length c.peers == 0
    then (1, [], none, m)
    else if ltb_ℤ (pos acks.success_count) required_acks
    then (
      acks.success_count,
      acks.all_results,
      some (insufficient_acks (pos acks.success_count) required_acks),
      acks.metrics,
    )
    else (acks.success_count, acks.all_results, none, acks.metrics)

pub record ReplicaValue : Type 0 where
  pub peer_addr : String
  pub value : Bytes
  pub version : ℤ
  pub timestamp : ℤ
  pub hlc : Hlc
  pub is_stale : Bool
  pub found : Bool

-- ReplicaValue{}
abbrev pub zero_replica : ReplicaValue
zero_replica = record {
  peer_addr = "";
  value = [];
  version = pos 0;
  timestamp = pos 0;
  hlc = zero_hlc;
  is_stale = false;
  found = false;
}

abbrev pub replica_of : String → GetResponse → ReplicaValue
replica_of addr resp = record {
  peer_addr = addr;
  value = resp.value;
  version = resp.version;
  timestamp = resp.timestamp;
  hlc = from_proto resp.hlc;
  is_stale = resp.is_stale;
  found = true;
}

-- The goroutines of `QueryReplicas` and the loop that collects what they send, in the order of the
-- replies: a failed call is counted, and a peer without the key sends nothing.
unfoldable pub collect_values :
    (String → Reply GetResponse) → List String → Metrics → List ReplicaValue × Metrics
collect_values call [] m = ([], m)
collect_values call (addr ∷ addrs) m = elim (call addr) [
  | failed e ↦ collect_values call addrs (record m { errors_rpc = m.errors_rpc + 1 })
  | answered resp ↦
      let (values, m') = collect_values call addrs m in
      if resp.found then (replica_of addr resp ∷ values, m') else (values, m')
]

-- Coordinator.QueryReplicas: the values or an error.
unfoldable pub query_replicas :
    (GetRequest → String → Reply GetResponse)
    → List String
    → String
    → ℤ
    → Coordinator
    → Metrics
    → List ReplicaValue × Option Error × Metrics
query_replicas call arrivals key required_responses c m =
    let (values, m') = collect_values (call (record { key = key })) arrivals m in
    if length c.peers == 0
    then (if ltb_ℤ (pos 1) required_responses
        then ([], some (insufficient_replicas required_responses), m)
        else ([], none, m))
    else if ltb_ℤ (pos (length values + 1)) required_responses
    then ([], some (insufficient_responses (pos (length values + 1)) required_responses), m')
    else (values, none, m')

-- The loop of `GetMostRecent`.
unfoldable pub most_recent_from : ReplicaValue → List ReplicaValue → ReplicaValue
most_recent_from best [] = best
most_recent_from best (v ∷ vs) =
    most_recent_from (if happens_after v.hlc best.hlc then v else best) vs

unfoldable pub get_most_recent : List ReplicaValue → Option ReplicaValue
unfolding most_recent_from
get_most_recent [] = none
get_most_recent (v ∷ vs) = some (most_recent_from v vs)
