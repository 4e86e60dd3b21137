-- ===== src/Replication/Counting.antt =====
-- Acknowledgements and responses are counted as the quorums want
-- (`Replicate` and `QueryReplicas` of internal/replication/coordinator.go).
use acp_kv.Prelude.{
  Bool, List, String, [], arith, false, if◌then◌else◌, length, length-append, refl, suc, ℕ, ◌++◌,
  ◌+◌, ◌∷◌, ◌≡◌, ltb_ℤ, none, pos, some, ℤ, ◌≢◌, ◌⊎◌,
}
use acp_kv.Failure.{insufficient_acks, insufficient_replicas, insufficient_responses}
use acp_kv.Hlc.{Hlc, to_proto}
use acp_kv.Metrics.{Metrics}
use acp_kv.Proto.{
  GetResponse, ReplicateResponse, Reply, answered, failed, ReplicateRequest, GetRequest,
}
use acp_kv.Replication.{
  replicate, Acks, Exchange, collect_acks, collect_values, replicate_to, Coordinator,
  query_replicas,
}
use acp_kv.Storage.{Bytes}

-- The peer has the write.
abbrev pub acknowledges : Reply ReplicateResponse → Bool
acknowledges (failed e) = false
acknowledges (answered resp) = resp.success

-- The peer has the key.
abbrev pub has_key : Reply GetResponse → Bool
has_key (failed e) = false
has_key (answered resp) = resp.found

-- How many of the peers pass a test.
abbrev pub count_peers : (String → Bool) → List String → ℕ
count_peers p [] = 0
count_peers p (addr ∷ addrs) = if p addr then suc (count_peers p addrs) else count_peers p addrs

success-replicate_to :
    (addr : String) (x : Exchange ReplicateResponse) (m : Metrics)
    → (replicate_to addr x m).0.success ≡ acknowledges x.reply
unfolding replicate_to
success-replicate_to addr x m = ground arith

collect_acks_lem :
    (call : String → Exchange ReplicateResponse) (addrs : List String) (acks : Acks)
    → ((collect_acks call addrs acks).success_count
        ≡ acks.success_count + count_peers (λ a. acknowledges (call a).reply) addrs)
      × (length (collect_acks call addrs acks).all_results ≡ length acks.all_results + length addrs)
unfolding collect_acks
collect_acks_lem call [] acks = omega arith
collect_acks_lem call (addr ∷ addrs) acks = ground (
  arith,
  success-replicate_to addr (call addr) acks.metrics,
  length-append acks.all_results ((replicate_to addr (call addr) acks.metrics).0 ∷ []),
  collect_acks_lem call addrs (record {
    success_count =
        if (replicate_to addr (call addr) acks.metrics).0.success
        then acks.success_count + 1
        else acks.success_count;
    all_results = acks.all_results ++ (replicate_to addr (call addr) acks.metrics).0 ∷ [];
    metrics = (replicate_to addr (call addr) acks.metrics).1;
  }),
)

length-collect_values :
    (call : String → Reply GetResponse) (addrs : List String) (m : Metrics)
    → length (collect_values call addrs m).0 ≡ count_peers (λ a. has_key (call a)) addrs
unfolding collect_values
length-collect_values call [] m = refl
length-collect_values call (addr ∷ addrs) m = ground (
  arith,
  length-collect_values call addrs m,
  length-collect_values call addrs (record m { errors_rpc = m.errors_rpc + 1 }),
)

-- What `Replicate` sends to each peer.
abbrev pub request_of : String → Bytes → ℤ → ℤ → Hlc → Coordinator → ReplicateRequest
request_of key value version timestamp hlc c = record {
  key = key;
  value = value;
  version = version;
  timestamp = timestamp;
  source_node_id = c.node_id;
  hlc = some hlc;
}

module _ (call : ReplicateRequest → String → Exchange ReplicateResponse) (arrivals : List String)
    (key : String) (value : Bytes) (version timestamp : ℤ) (hlc : Hlc) (required : ℤ)
    (c : Coordinator) (m : Metrics) where
  -- The node itself and the peers that acknowledge the write.
  abbrev pub acks : ℕ
  acks = suc (
      count_peers (λ a. acknowledges (call (request_of key value version timestamp hlc c) a).reply)
        arrivals)

  -- `Replicate` counts the node itself and each peer that acknowledges, and reports one result for each
  -- peer. It succeeds exactly where that many reach the required number or no peer is connected, and
  -- fails with both numbers otherwise.
  pub replicate_lem :
      let (count, results, error, m') =
        replicate call arrivals key value version timestamp hlc required c m in
      ((length c.peers ≡ 0) × (count ≡ 1) × (results ≡ []) × (error ≡ none))
      ⊎ ((length c.peers ≢ 0)
          × (count ≡ acks)
          × (length results ≡ length arrivals)
          × (error ≡ (
              if ltb_ℤ (pos acks) required
              then some (insufficient_acks (pos acks) required)
              else none)))
  unfolding replicate to_proto
  replicate_lem = ground (
    arith,
    collect_acks_lem (call (request_of key value version timestamp hlc c)) arrivals
        (record { success_count = 1; all_results = []; metrics = m }),
  )

module _ (call : GetRequest → String → Reply GetResponse) (arrivals : List String) (key : String)
    (required : ℤ) (c : Coordinator) (m : Metrics) where
  -- The node itself and the peers that have the key.
  abbrev pub responders : ℕ
  responders = suc (count_peers (λ a. has_key (call (record { key = key }) a)) arrivals)

  -- `QueryReplicas` counts the node itself, whether or not it has the key, and each connected peer that
  -- has it; a peer that answers without the key counts for nothing. It fails exactly where these are
  -- fewer than required, and otherwise returns one value for each of those peers.
  pub query_replicas_lem :
      let (values, error, m') = query_replicas call arrivals key required c m in
      ((length c.peers ≡ 0)
        × (values ≡ [])
        × (error
            ≡ (if ltb_ℤ (pos 1) required then some (insufficient_replicas required) else none)))
      ⊎ ((length c.peers ≢ 0)
          × (error ≡ (
              if ltb_ℤ (pos responders) required
              then some (insufficient_responses (pos responders) required)
              else none))
          × (error ≡ none → suc (length values) ≡ responders))
  unfolding query_replicas
  query_replicas_lem =
      ground (arith, length-collect_values (call (record { key = key })) arrivals m)
