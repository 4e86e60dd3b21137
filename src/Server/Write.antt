-- ===== src/Server/Write.antt =====
-- What `Put` does to the node that serves it (internal/server/server.go).
use acp_kv.Storage
use acp_kv.Prelude.{
  String, arith, if◌then◌else◌, length, pos, some, str_eq, suc, true, ℕ, ◌<ℤ◌, ◌≡◌, ◌≢◌, ◌≤ℤ◌, ◌⊎◌,
  List, [], ◌++◌, ◌+◌, ◌∷◌,
}
use acp_kv.Failure.{insufficient_acks}
use acp_kv.Hlc.{Hlc, now_hlc, to_proto}
use acp_kv.Metrics.{Metrics}
use acp_kv.Proto.{PutRequest, ReplicateRequest, ReplicateResponse}
use acp_kv.Replication.{replicate, Acks, Exchange, collect_acks, replicate_to}
use acp_kv.Replication.Counting.{acknowledges, count_peers, replicate_lem, request_of}
use acp_kv.Server.{put, get_w, Server, World, failed_put}
use acp_kv.Storage.{put_with_hlc, stamped}
use acp_kv.Storage.Laws.{get-put_with_hlc}

-- The timestamp that `Put` draws.
abbrev pub stamp_of : World → Server → Hlc
stamp_of x s = (now_hlc x.first s.hlc_clock).0

-- What `Put` asks of each peer: to hold the write under the timestamp drawn.
abbrev pub put_request : World → PutRequest → Server → ReplicateRequest
put_request x req s =
    request_of req.key req.value (stamp_of x s).physical (stamp_of x s).physical (stamp_of x s)
      s.coordinator

-- The acknowledgements of a `Put`: that of the node itself, and one of each peer that answers it.
abbrev pub put_acks : World → PutRequest → Server → ℕ
put_acks x req s =
    suc (count_peers (λ a. acknowledges (x.on_replicate (put_request x req s) a).reply) x.arrivals)

-- `Put` writes to the local store whether or not it succeeds: the key holds the new value with the
-- timestamp that `Put` drew, and every other key what it held.
pub store-put :
    (x : World) (req : PutRequest) (s : Server) (j : String)
    → Storage.get j (put x req s).1.store ≡ (
        if str_eq req.key j
        then some (stamped x.second req.value s.node_id (stamp_of x s))
        else Storage.get j s.store)
unfolding put
store-put x req s j = get-put_with_hlc x.second req.key j req.value s.node_id (stamp_of x s) s.store

-- `Put` succeeds exactly where no peer is connected, whatever the write quorum, or the acknowledgements, its
-- own among them, are as many as the write quorum. It answers a success with the timestamp that it drew and a
-- failure with the two numbers.
pub put_answer :
    (x : World) (req : PutRequest) (s : Server)
    → ((length s.coordinator.peers ≡ 0)
        × ((put x req s).0.success ≡ true)
        × ((put x req s).0.hlc ≡ some (stamp_of x s)))
      ⊎ ((length s.coordinator.peers ≢ 0)
          × (get_w s.quorum_provider ≤ℤ pos (put_acks x req s))
          × ((put x req s).0.success ≡ true)
          × ((put x req s).0.hlc ≡ some (stamp_of x s)))
      ⊎ ((length s.coordinator.peers ≢ 0)
          × (pos (put_acks x req s) <ℤ get_w s.quorum_provider)
          × ((put x req s).0
              ≡ failed_put (insufficient_acks (pos (put_acks x req s)) (get_w s.quorum_provider))))
unfolding put put_with_hlc stamped to_proto
put_answer x req s = ground (
  arith,
  replicate_lem x.on_replicate x.arrivals req.key req.value (stamp_of x s).physical
      (stamp_of x s).physical (stamp_of x s) (get_w s.quorum_provider) s.coordinator s.metrics,
)

-- Every write operation was counted as a success or as a failure.
abbrev pub IsCounted : Metrics → Type 0
IsCounted m = m.write_ops_total ≡ m.write_success_total + m.write_failure_total

replicate_to-IsCounted :
    (addr : String) (r : Exchange ReplicateResponse) (m : Metrics)
    → IsCounted m
    → IsCounted (replicate_to addr r m).1
unfolding replicate_to
replicate_to-IsCounted addr r m h = ground arith

collect_acks-IsCounted :
    (call : String → Exchange ReplicateResponse) (addrs : List String) (acks : Acks)
    → IsCounted acks.metrics
    → IsCounted (collect_acks call addrs acks).metrics
unfolding collect_acks
collect_acks-IsCounted call [] acks h = h
collect_acks-IsCounted call (addr ∷ addrs) acks h =
    collect_acks-IsCounted call addrs
      (record {
        success_count =
            if (replicate_to addr (call addr) acks.metrics).0.success
            then acks.success_count + 1
            else acks.success_count;
        all_results = acks.all_results ++ (replicate_to addr (call addr) acks.metrics).0 ∷ [];
        metrics = (replicate_to addr (call addr) acks.metrics).1;
      })
      (replicate_to-IsCounted addr (call addr) acks.metrics h)

-- `Put` keeps the counters consistent: the write operations are the successes and the failures together.
pub put-IsCounted :
    (x : World) (req : PutRequest) (s : Server)
    → IsCounted s.metrics
    → IsCounted (put x req s).1.metrics
unfolding put replicate put_with_hlc stamped to_proto
put-IsCounted x req s h = ground (
  arith,
  collect_acks-IsCounted (x.on_replicate (put_request x req s)) x.arrivals
      (record { success_count = 1; all_results = []; metrics = s.metrics }) h,
)
