-- ===== src/Cluster.antt =====
-- Several nodes together: a `Put` at one node and a `Get` at another, over calls that may be lost
-- (internal/server/server.go and internal/replication/coordinator.go).
pub mod Pigeonhole
pub mod Values
pub mod Holders
pub mod Responders
pub mod Intersection
pub mod Async
mod Tests
use acp_kv.Prelude.{List, String, if◌then◌else◌, str_eq}
use acp_kv.Failure.{Error}
use acp_kv.Proto.{
  GetRequest, GetResponse, PutRequest, ReplicateRequest, ReplicateResponse, Reply, answered, failed,
}
use acp_kv.Replication.{Exchange, contains}
use acp_kv.Server.{put, get_local, Server, World, accept}
use acp_kv.Server.Write.{put_request}

-- What happens to a call of a peer: it is served and answered, it is served and the answer is lost, or
-- the call is lost.
pub data Fate : Type 0 where
  served unanswered lost : Fate

-- The servers by address, the fate of the call to each, and what the served calls meet.
pub record Network : Type 0 where
  pub nodes : String → Server
  pub fates : String → Fate
  pub worlds : String → World
  pub timed_out : Error

-- The reply of a peer to a `Replicate` call.
unfoldable pub on_replicate : Network → ReplicateRequest → String → Exchange ReplicateResponse
on_replicate net req addr = elim (net.fates addr) [
  | served ↦ record {
    reply = answered (accept (net.worlds addr) req (net.nodes addr)).0;
    latency = (net.worlds addr).elapsed;
  }
  | _ ↦ record { reply = failed net.timed_out; latency = (net.worlds addr).elapsed }
]

-- The server of a peer after a `Replicate` call to it.
unfoldable pub after_replicate : Network → ReplicateRequest → String → Server
after_replicate net req addr = elim (net.fates addr) [
  | lost ↦ net.nodes addr
  | _ ↦ (accept (net.worlds addr) req (net.nodes addr)).1
]

-- The reply of a peer to a `GetLocal` call.
unfoldable pub on_get_local : Network → GetRequest → String → Reply GetResponse
on_get_local net req addr = elim (net.fates addr) [
  | served ↦ answered (get_local (net.worlds addr).first req (net.nodes addr))
  | _ ↦ failed net.timed_out
]

-- The servers after a `Put` at `writer`, whose peers are at `peers`.
unfoldable pub after_put : Network → World → PutRequest → String → List String → String → Server
after_put net x req writer peers addr =
    let x' : World = record x { arrivals = peers; on_replicate = on_replicate net } in
    if str_eq addr writer
    then (put x' req (net.nodes writer)).1
    else if contains addr peers
    then after_replicate net (put_request x' req (net.nodes writer)) addr
    else net.nodes addr
