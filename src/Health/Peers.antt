-- ===== src/Health/Peers.antt =====
-- The connections of the probe are those of a coordinator, and which peers it checks
-- (internal/health/probe.go, internal/replication/coordinator.go).
use acp_kv.Prelude.{
  List, String, [], false, is_some, none, ◌∷◌, ℤ, ◌≡◌, refl, arith, Option-cases, inl, inr,
  Bool-cases, ap, sym, ◌∙◌,
}
use acp_kv.Health.{
  Probe, connect, connect_missing, connect_all, new_probe, disconnect, disconnect_absent,
  reconcile_probes, start_probe,
}
use acp_kv.Metrics.{Metrics}
use acp_kv.Prelude.Map.{lookup, keys}
use acp_kv.Replication.{
  Coordinator, Dial, contains, target, add_peers, new_coordinator, add_peer, remove_peer,
  remove_absent, add_missing, reconcile_peers,
}

-- A coordinator with the probe's maps.
abbrev pub links : Coordinator → Probe → Coordinator
links t p = record t { peers = p.peers; conns = p.conns }

links-connect :
    (t : Coordinator) (dial : Dial) (k : String) (p : Probe)
    → links t (connect dial k p).1 ≡ (add_peer dial k (links t p)).1
unfolding connect add_peer
links-connect t dial k p = elim (Option-cases (lookup k p.peers)) [
  | inl gone ↦
      rw (gone, connect, add_peer)
        (elim (Option-cases (dial (target k))) [
          | inl ok ↦ rw ok refl
          | inr (e, refused) ↦ rw refused refl
        ])
  | inr (v, there) ↦ rw (there, connect, add_peer) refl
]

links-disconnect :
    (t : Coordinator) (k : String) (p : Probe)
    → links t (disconnect k p) ≡ remove_peer k (links t p)
unfolding disconnect remove_peer
links-disconnect t k p = elim (Option-cases (lookup k p.conns)) [
  | inl gone ↦ rw (gone, disconnect, remove_peer) refl
  | inr (v, there) ↦ rw (there, disconnect, remove_peer) refl
]

connect_failed :
    (dial : Dial) (k : String) (p : Probe) → (connect dial k p).0 ≡ false → (connect dial k p).1 ≡ p
unfolding connect
connect_failed dial k p failed = ground (arith, failed)

links-disconnect_absent :
    (t : Coordinator) (new addrs : List String) (p : Probe)
    → links t (disconnect_absent new addrs p) ≡ remove_absent new addrs (links t p)
unfolding disconnect_absent remove_absent
links-disconnect_absent t new [] p = refl
links-disconnect_absent t new (k ∷ addrs) p = elim (Bool-cases (contains k new)) [
  | inl listed ↦
      rw (listed, disconnect_absent, remove_absent) (links-disconnect_absent t new addrs p)
  | inr absent ↦
      rw (absent, disconnect_absent, remove_absent)
        (links-disconnect_absent t new addrs (disconnect k p)
          ∙ ap (remove_absent new addrs) (links-disconnect t k p))
]

-- What a new peer costs: a connection, and a probe where that succeeds.
links-connect_missing :
    (t : Coordinator) (dial : Dial) (addrs : List String) (p : Probe)
    → links t (connect_missing dial addrs p) ≡ add_missing dial addrs (links t p)
unfolding connect_missing add_missing start_probe
links-connect_missing t dial [] p = refl
links-connect_missing t dial (k ∷ addrs) p = elim (Bool-cases (is_some (lookup k p.peers))) [
  | inl there ↦ rw (there, connect_missing, add_missing) (links-connect_missing t dial addrs p)
  | inr gone ↦ elim (Bool-cases (connect dial k p).0) [
    | inl ok ↦
        rw (gone, ok, connect_missing, add_missing)
          (links-connect_missing t dial addrs (start_probe k (connect dial k p).1)
            ∙ ap (add_missing dial addrs) (links-connect t dial k p))
    | inr failed ↦
        rw (gone, failed, connect_missing, add_missing)
          (links-connect_missing t dial addrs p
            ∙ ap (add_missing dial addrs)
                (ap (links t) (sym (connect_failed dial k p failed)) ∙ links-connect t dial k p))
  ]
]

-- A discovery round changes the probe's connections as it changes a coordinator's with the same ones,
-- so that probe and coordinator that start with the same connections keep the same ones.
pub links-reconcile_probes :
    (t : Coordinator) (dial : Dial) (new : List String) (p : Probe)
    → links t (reconcile_probes dial new p) ≡ reconcile_peers dial new (links t p)
unfolding reconcile_probes reconcile_peers
links-reconcile_probes t dial new p =
    links-connect_missing t dial new (disconnect_absent new (keys p.peers) p)
    ∙ ap (add_missing dial new) (links-disconnect_absent t new (keys p.peers) p)

links-connect_all :
    (t : Coordinator) (dial : Dial) (addrs : List String) (p : Probe)
    → links t (connect_all dial addrs p) ≡ add_peers dial addrs (links t p)
unfolding connect_all add_peers
links-connect_all t dial [] p = refl
links-connect_all t dial (k ∷ addrs) p =
    links-connect_all t dial addrs (connect dial k p).1
    ∙ ap (add_peers dial addrs) (links-connect t dial k p)

-- A new probe is connected as a new coordinator is.
pub links-new_probe :
    (dial : Dial) (node_id : String) (addrs : List String) (timeout : ℤ) (m : Metrics)
    → (new_probe dial addrs m).peers ≡ (new_coordinator dial node_id addrs timeout).peers
unfolding new_probe new_coordinator
links-new_probe dial node_id addrs timeout m =
    ap (λ (c : Coordinator). c.peers)
      (links-connect_all
        (record {
          node_id = node_id;
          peers = [];
          conns = [];
          configured_peers = addrs;
          timeout = timeout;
        })
        dial addrs
        (record {
          peers = [];
          conns = [];
          probes = [];
          peer_status = [];
          healing_listener = none;
          metrics = m;
        }))
