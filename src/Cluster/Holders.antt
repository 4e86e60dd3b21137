-- ===== src/Cluster/Holders.antt =====
-- The nodes that hold a write (`Put` and `Replicate` of internal/server/server.go).
use acp_kv.Storage
use acp_kv.Prelude.{
  Bool-cases, List, String, arith, false, inl, inr, refl, some, str_eq, str_eq_iff, true, ◌∷◌, ◌≡◌,
  Bool, ◌&&◌, ◌||◌, ap, ◌∙◌,
}
use acp_kv.Cluster.{
  on_replicate, Network, after_put, Fate, after_replicate, lost, served, unanswered,
}
use acp_kv.Cluster.Pigeonhole.{count_peers_congr}
use acp_kv.Hlc.{Hlc, from_proto}
use acp_kv.Prelude.Map.{str_eq_refl}
use acp_kv.Proto.{PutRequest, ReplicateRequest}
use acp_kv.Replication.{contains}
use acp_kv.Replication.Counting.{acknowledges, count_peers}
use acp_kv.Server.{put, World, accept, Server}
use acp_kv.Server.Peer.{get-accept}
use acp_kv.Server.Write.{put_acks, put_request, stamp_of, store-put}
use acp_kv.Storage.{VersionedValue, stamped}

-- A peer that acknowledges a call has served it.
after_replicate_acknowledged :
    (net : Network) (r : ReplicateRequest) (a : String)
    → acknowledges (on_replicate net r a).reply ≡ true
    → after_replicate net r a ≡ (accept (net.worlds a) r (net.nodes a)).1
unfolding on_replicate after_replicate
after_replicate_acknowledged net r a h = go (net.fates a) refl
  where
    go :
        (f : Fate)
        → net.fates a ≡ f
        → after_replicate net r a ≡ (accept (net.worlds a) r (net.nodes a)).1
    go served e = rw (e, after_replicate)
    go unanswered e = rw (e, after_replicate)
    go lost e = absurd (cc (rw (e, on_replicate) at h))

module _ (net : Network) (writer : String) (peers : List String) (x : World)
    (req : PutRequest) where
  -- What the `Put` at `writer` meets.
  abbrev pub write_world : World
  write_world = record x { arrivals = peers; on_replicate = on_replicate net }

  -- The timestamp of the write.
  abbrev pub written : Hlc
  written = stamp_of write_world (net.nodes writer)

  -- The writer, and the peers that acknowledged the write.
  abbrev pub holds : String → Bool
  holds a =
      str_eq a writer
      || (contains a peers
          && acknowledges
              (on_replicate net (put_request write_world req (net.nodes writer)) a).reply)

  at_writer :
      (a : String)
      → str_eq a writer ≡ true
      → after_put net x req writer peers a ≡ (put write_world req (net.nodes writer)).1
  unfolding after_put
  at_writer a self = rw self

  at_peer :
      (a : String)
      → str_eq a writer ≡ false
      → contains a peers ≡ true
      → after_put net x req writer peers a
        ≡ after_replicate net (put_request write_world req (net.nodes writer)) a
  unfolding after_put
  at_peer a other c = rw (other, c)

  -- A node that holds the write has it in its store.
  pub holds-get :
      (a : String)
      → holds a ≡ true
      → (v : VersionedValue) × (Storage.get req.key (after_put net x req writer peers a).store
          ≡ some v)
        × (v.hlc ≡ written)
  holds-get a h = elim (Bool-cases (str_eq a writer)) [
    | inl self ↦
        let s = net.nodes writer in
        (
          stamped x.second req.value s.node_id written,
          ap (λ (n : Server). Storage.get req.key n.store) (at_writer a self)
              ∙ (rw (str_eq_refl req.key) at (store-put write_world req s req.key)),
          unfold stamped in refl,
        )
    | inr other ↦
        let r = put_request write_world req (net.nodes writer) in
        let acked : acknowledges (on_replicate net r a).reply ≡ true = ground arith in
        (
          stamped (net.worlds a).second req.value (net.nodes writer).coordinator.node_id written,
          ap (λ (n : Server). Storage.get req.key n.store)
                (at_peer a other (ground arith) ∙ after_replicate_acknowledged net r a acked)
              ∙ unfold from_proto in
                (rw (str_eq_refl req.key) at
                  ((get-accept (net.worlds a) r (net.nodes a) req.key).1)),
          unfold stamped in refl,
        )
  ]

  pub holders-count :
      contains writer peers ≡ false
      → put_acks write_world req (net.nodes writer) ≡ count_peers holds (writer ∷ peers)
  holders-count apart = ground (
    arith,
    str_eq_refl writer,
    count_peers_congr
        (λ a.
          acknowledges (on_replicate net (put_request write_world req (net.nodes writer)) a).reply)
        holds peers (λ a c. ground (arith, str_eq_iff a writer)),
  )
