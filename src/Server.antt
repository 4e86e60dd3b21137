-- ===== src/Server.antt =====
-- internal/server/server.go: the handlers of a node. Each takes the readings of the clock that it
-- makes, how long it ran, what its peers reply, and in which order. Logging is left out.
pub mod Write
pub mod Read
pub mod Peer
pub mod Causal
mod Tests
use acp_kv.Config
use acp_kv.Adaptive.Quorum
use acp_kv.Storage
use acp_kv.Prelude.{
  List, Option, String, [], eqb_ℤ, false, if◌then◌else◌, none, pos, some, true, ℤ, ◌++◌, ◌+◌, ◌∷◌,
}
use acp_kv.Adaptive.Quorum.{AdaptiveQuorum}
use acp_kv.Config.{Config}
use acp_kv.Failure.{Error}
use acp_kv.Hlc.{update, Clock, Hlc, from_proto, now_hlc, to_proto}
use acp_kv.Metrics.{
  Metrics, record_read_failure, record_read_success, record_write_failure, record_write_success,
}
use acp_kv.Proto.{
  GetRequest, GetResponse, HealthRequest, HealthResponse, PutRequest, PutResponse, ReplicateRequest,
  ReplicateResponse, Reply,
}
use acp_kv.Reconcile.Engine.{Engine, record_write}
use acp_kv.Replication.{
  replicate, Coordinator, Exchange, ReplicaValue, get_most_recent, query_replicas,
}
use acp_kv.Staleness.{Detector, check_strict, is_stale}
use acp_kv.Storage.{Bytes, Store, VersionedValue, put_with_hlc, zero_value}

-- adaptive.QuorumProvider: the static configuration or the adaptive quorum.
pub data QuorumProvider : Type 0 where
  fixed : Config → QuorumProvider
  adaptive : AdaptiveQuorum → QuorumProvider

unfoldable pub get_r : QuorumProvider → ℤ
get_r (fixed c) = Config.get_r c
get_r (adaptive q) = Quorum.get_r q

unfoldable pub get_w : QuorumProvider → ℤ
get_w (fixed c) = Config.get_w c
get_w (adaptive q) = Quorum.get_w q

pub record Server : Type 0 where
  pub node_id : String
  pub store : Store
  pub coordinator : Coordinator
  pub quorum_provider : QuorumProvider
  pub metrics : Metrics
  pub hlc_clock : Clock
  pub staleness_detector : Detector
  pub reconciler : Option Engine

unfoldable pub new_server :
    String
    → Store
    → Coordinator
    → QuorumProvider
    → Metrics
    → Clock
    → Detector
    → Option Engine
    → Server
new_server node_id store coordinator quorum_provider m clock detector reconciler = record {
  node_id = node_id;
  store = store;
  coordinator = coordinator;
  quorum_provider = quorum_provider;
  metrics = m;
  hlc_clock = clock;
  staleness_detector = detector;
  reconciler = reconciler;
}

-- What a call of a handler meets: the three readings of the clock that `Put` makes in turn (others
-- make fewer), its duration, the order of the peers' replies, and the replies.
pub record World : Type 0 where
  pub first : ℤ
  pub second : ℤ
  pub third : ℤ
  pub elapsed : ℤ
  pub arrivals : List String
  pub on_replicate : ReplicateRequest → String → Exchange ReplicateResponse
  pub on_get_local : GetRequest → String → Reply GetResponse

-- "record write in reconciliation log", if there is a reconciler
unfoldable pub log_write : ℤ → String → Bytes → String → Hlc → Option Engine → Option Engine
log_write now key value node_id t none = none
log_write now key value node_id t (some e) = some (record_write now key value node_id t e)

abbrev pub failed_put : Error → PutResponse
failed_put e = record {
  success = false;
  error = some e;
  version = pos 0;
  timestamp = pos 0;
  hlc = none;
}

abbrev pub observe_put : ℤ → Metrics → Metrics
observe_put elapsed m = record m { put_latency = elapsed ∷ m.put_latency }

abbrev pub count_timeout : Metrics → Metrics
count_timeout m = record m { errors_timeout = m.errors_timeout + 1 }

-- The end of `Put`, from what `Replicate` returned.
unfoldable pub finish_put : ℤ → VersionedValue → Option Error → Metrics → PutResponse × Metrics
unfolding record_write_failure record_write_success
finish_put elapsed vv (some e) m =
    (failed_put e, observe_put elapsed (count_timeout (record_write_failure m)))
finish_put elapsed vv none m = (
  record {
    success = true;
    error = none;
    version = vv.version;
    timestamp = vv.timestamp;
    hlc = to_proto vv.hlc;
  },
  observe_put elapsed (record_write_success m),
)

-- Server.Put
unfoldable pub put : World → PutRequest → Server → PutResponse × Server
unfolding finish_put log_write
put x req s =
    let (timestamp, clock) = now_hlc x.first s.hlc_clock in
    let (vv, store) = put_with_hlc x.second req.key req.value s.node_id timestamp s.store in
    let reconciler = log_write x.third req.key req.value s.node_id timestamp s.reconciler in
    let required_w = get_w s.quorum_provider in
    let (acks, results, err, m) =
      replicate x.on_replicate x.arrivals req.key req.value vv.version vv.timestamp timestamp
        required_w s.coordinator s.metrics in
    let (resp, m') = finish_put x.elapsed vv err m in
    (resp, record s { hlc_clock = clock; store = store; reconciler = reconciler; metrics = m' })

-- &proto.GetResponse{Found: false}
abbrev pub not_found : GetResponse
not_found = record {
  found = false;
  value = [];
  version = pos 0;
  timestamp = pos 0;
  error = none;
  hlc = none;
  is_stale = false;
}

abbrev pub observe_get : ℤ → Metrics → Metrics
observe_get elapsed m = record m { get_latency = elapsed ∷ m.get_latency }

-- The answer with a value that passed the staleness check, and without one that failed it.
unfoldable pub answer_value : Bytes → ℤ → ℤ → Hlc → Option Error × Metrics → GetResponse × Metrics
unfolding record_read_failure record_read_success
answer_value value version timestamp hlc (some e, m) =
    (record not_found { found = true; is_stale = true; error = some e }, record_read_failure m)
answer_value value version timestamp hlc (none, m) = (
  record {
    found = true;
    value = value;
    version = version;
    timestamp = timestamp;
    error = none;
    hlc = to_proto hlc;
    is_stale = false;
  },
  record_read_success m,
)

-- "if R = 1, return local value immediately"
unfoldable pub get_alone : ℤ → Detector → Option VersionedValue → Metrics → GetResponse × Metrics
unfolding answer_value record_read_success
get_alone now d none m = (not_found, record_read_success m)
get_alone now d (some v) m =
    answer_value v.value v.version v.timestamp v.hlc (check_strict now d v m)

-- The local value among the replicas' values.
abbrev pub local_replica : VersionedValue → ReplicaValue
local_replica v = record {
  peer_addr = "local";
  value = v.value;
  version = v.version;
  timestamp = v.timestamp;
  hlc = v.hlc;
  is_stale = false;
  found = true;
}

unfoldable pub with_local : Option VersionedValue → List ReplicaValue → List ReplicaValue
with_local none values = values
with_local (some v) values = values ++ local_replica v ∷ []

-- The end of a quorum read, from the most recent value.
unfoldable pub answer_recent :
    ℤ → String → Detector → Option ReplicaValue → Metrics → GetResponse × Metrics
unfolding answer_value record_read_success
answer_recent now node_id d none m = (not_found, record_read_success m)
answer_recent now node_id d (some r) m =
    let vv : VersionedValue = record zero_value {
      value = r.value;
      version = r.version;
      hlc = r.hlc;
      node_id = node_id;
    } in
    answer_value r.value r.version r.timestamp r.hlc (check_strict now d vv m)

-- A quorum read, from what `QueryReplicas` returned.
unfoldable pub get_quorum :
    ℤ
    → String
    → Detector
    → Option VersionedValue
    → List ReplicaValue × Option Error × Metrics
    → GetResponse × Metrics
unfolding with_local answer_recent record_read_failure
get_quorum now node_id d local (values, some e, m) =
    (record not_found { error = some e }, count_timeout (record_read_failure m))
get_quorum now node_id d local (values, none, m) =
    answer_recent now node_id d (get_most_recent (with_local local values)) m

-- Server.Get
unfoldable pub get : World → GetRequest → Server → GetResponse × Server
unfolding get_alone get_quorum
get x req s =
    let local = Storage.get req.key s.store in
    let required_r = get_r s.quorum_provider in
    let (resp, m) =
      if eqb_ℤ required_r (pos 1)
      then get_alone x.first s.staleness_detector local s.metrics
      else get_quorum x.first s.node_id s.staleness_detector local
          (query_replicas x.on_get_local x.arrivals req.key required_r s.coordinator s.metrics) in
    (resp, record s { metrics = observe_get x.elapsed m })

-- Server.GetLocal
unfoldable pub get_local : ℤ → GetRequest → Server → GetResponse
get_local now req s = elim (Storage.get req.key s.store) [
  | none ↦ not_found
  | some v ↦ record {
    found = true;
    value = v.value;
    version = v.version;
    timestamp = v.timestamp;
    error = none;
    hlc = to_proto v.hlc;
    is_stale = is_stale s.staleness_detector v.hlc now;
  }
]

-- Server.Replicate: an error of the clock is logged.
unfoldable pub accept : World → ReplicateRequest → Server → ReplicateResponse × Server
unfolding log_write
accept x req s =
    let remote = from_proto req.hlc in
    let clock = (update x.first remote s.hlc_clock).1 in
    let store = (put_with_hlc x.second req.key req.value req.source_node_id remote s.store).1 in
    let reconciler = log_write x.third req.key req.value req.source_node_id remote s.reconciler in
    (
      record { success = true; error = none; node_id = s.node_id },
      record s { hlc_clock = clock; store = store; reconciler = reconciler },
    )

-- "update clock with remote timestamp if provided"
unfoldable pub sync : ℤ → Option Hlc → Clock → Clock
sync now none c = c
sync now (some p) c = (update now (from_proto (some p)) c).1

-- Server.HealthCheck
unfoldable pub health_check : World → HealthRequest → Server → HealthResponse × Server
unfolding sync
health_check x req s =
    let (current, clock) = now_hlc x.second (sync x.first req.hlc s.hlc_clock) in
    (
      record { healthy = true; node_id = s.node_id; timestamp = x.third; hlc = to_proto current },
      record s { hlc_clock = clock },
    )
