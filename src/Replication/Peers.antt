-- ===== src/Replication/Peers.antt =====
-- Which peers the node is connected to (addPeer, removePeer and reconcilePeers of
-- internal/replication/coordinator.go).
use acp_kv.Prelude.{
  Bool, Option-cases, String, [], arith, inl, inr, is_some, not, refl, str_eq, ◌&&◌, ◌||◌, ◌∷◌, ◌≡◌,
  Bool-cases, List, str_eq_iff, ℤ,
}
use acp_kv.Prelude.Map.{Map, lookup, keys, lookup-insert, lookup-remove}
use acp_kv.Replication.{
  Coordinator, Dial, add_peer, contains, remove_peer, target, add_missing, remove_absent, add_peers,
  new_coordinator, reconcile_peers,
}

abbrev pub is_connected : String → Coordinator → Bool
is_connected addr c = is_some (lookup addr c.peers)

-- The maps of clients and of connections have the same keys.
abbrev pub IsPaired : Coordinator → Type 0
IsPaired c = (addr : String) → is_some (lookup addr c.conns) ≡ is_connected addr c

abbrev pub can_dial : Dial → String → Bool
can_dial dial addr = not (is_some (dial (target addr)))

contains-keys : {V : Type 0} (j : String) (m : Map V) → contains j (keys m) ≡ is_some (lookup j m)
unfolding contains keys lookup
contains-keys j [] = refl
contains-keys j ((i, v) ∷ m) = ground (arith, contains-keys j m)

remove_peer_lem :
    (k j : String) (c : Coordinator)
    → IsPaired c
    → (is_connected j (remove_peer k c) ≡ (not (str_eq k j) && is_connected j c))
      × IsPaired (remove_peer k c)
unfolding remove_peer
remove_peer_lem k j c paired = elim (Option-cases (lookup k c.conns)) [
  | inl gone ↦ rw (gone, remove_peer) (ground (arith, str_eq_iff k j, paired k), paired)
  | inr (v, there) ↦
      rw (there, remove_peer)
        (
          rw lookup-remove (ground arith),
          λ a. rw (lookup-remove k a c.conns, lookup-remove k a c.peers) (ground (arith, paired a)),
        )
]

add_peer_lem :
    (dial : Dial) (k j : String) (c : Coordinator)
    → IsPaired c
    → (is_connected j (add_peer dial k c).1 ≡ (is_connected j c || (str_eq k j && can_dial dial k)))
      × IsPaired (add_peer dial k c).1
unfolding add_peer
add_peer_lem dial k j c paired = elim (Option-cases (lookup k c.peers)) [
  | inl gone ↦
      rw (gone, add_peer)
        (elim (Option-cases (dial (target k))) [
          | inl ok ↦ rw ok (
            rw lookup-insert (ground (arith, str_eq_iff k j)),
            λ a.
                rw (lookup-insert k a (target k) c.conns, lookup-insert k a (target k) c.peers)
                  (ground (arith, paired a)),
          )
          | inr (e, refused) ↦ rw refused (ground (arith, str_eq_iff k j), paired)
        ])
  | inr (v, there) ↦ rw (there, add_peer) (ground (arith, str_eq_iff k j), paired)
]

remove_absent_lem :
    (new addrs : List String) (j : String) (c : Coordinator)
    → IsPaired c
    → (is_connected j (remove_absent new addrs c)
        ≡ ((contains j new || not (contains j addrs)) && is_connected j c))
      × IsPaired (remove_absent new addrs c)
unfolding remove_absent contains
remove_absent_lem new [] j c paired = (ground arith, paired)
remove_absent_lem new (k ∷ addrs) j c paired = elim (Bool-cases (contains k new)) [
  | inl listed ↦
      let (e, p) = remove_absent_lem new addrs j c paired in
      rw (listed, remove_absent) (ground (arith, str_eq_iff k j, e, listed), p)
  | inr absent ↦
      let (e0, p0) = remove_peer_lem k j c paired in
      let (e, p) = remove_absent_lem new addrs j (remove_peer k c) p0 in
      rw (absent, remove_absent) (ground (arith, str_eq_iff k j, e, e0, absent), p)
]

add_missing_lem :
    (dial : Dial) (addrs : List String) (j : String) (c : Coordinator)
    → IsPaired c
    → (is_connected j (add_missing dial addrs c)
        ≡ (is_connected j c || (contains j addrs && can_dial dial j)))
      × IsPaired (add_missing dial addrs c)
unfolding add_missing contains
add_missing_lem dial [] j c paired = (ground arith, paired)
add_missing_lem dial (k ∷ addrs) j c paired = elim (Bool-cases (is_connected k c)) [
  | inl there ↦
      let (e, p) = add_missing_lem dial addrs j c paired in
      rw (there, add_missing) (ground (arith, str_eq_iff k j, e, there), p)
  | inr gone ↦
      let (e0, p0) = add_peer_lem dial k j c paired in
      let (e, p) = add_missing_lem dial addrs j (add_peer dial k c).1 p0 in
      rw (gone, add_missing) (ground (arith, str_eq_iff k j, e, e0, gone), p)
]

add_peers_lem :
    (dial : Dial) (addrs : List String) (j : String) (c : Coordinator)
    → IsPaired c
    → (is_connected j (add_peers dial addrs c)
        ≡ (is_connected j c || (contains j addrs && can_dial dial j)))
      × IsPaired (add_peers dial addrs c)
unfolding add_peers contains
add_peers_lem dial [] j c paired = (ground arith, paired)
add_peers_lem dial (k ∷ addrs) j c paired =
    let (e0, p0) = add_peer_lem dial k j c paired in
    let (e, p) = add_peers_lem dial addrs j (add_peer dial k c).1 p0 in
    (ground (arith, str_eq_iff k j, e, e0), p)

-- After a discovery round the node is connected to exactly the peers that were discovered, each of
-- which it was connected to before or can be dialled; the two maps keep the same keys.
pub reconcile_peers_lem :
    (dial : Dial) (new : List String) (j : String) (c : Coordinator)
    → IsPaired c
    → (is_connected j (reconcile_peers dial new c)
        ≡ (contains j new && (is_connected j c || can_dial dial j)))
      × IsPaired (reconcile_peers dial new c)
unfolding reconcile_peers
reconcile_peers_lem dial new j c paired =
    let (e0, p0) = remove_absent_lem new (keys c.peers) j c paired in
    let (e, p) = add_missing_lem dial new j (remove_absent new (keys c.peers) c) p0 in
    (ground (arith, e, e0, contains-keys j c.peers), p)

-- A new coordinator is connected to exactly the configured peers that can be dialled.
pub new_coordinator_lem :
    (dial : Dial) (node_id : String) (addrs : List String) (timeout : ℤ) (j : String)
    → (is_connected j (new_coordinator dial node_id addrs timeout)
        ≡ (contains j addrs && can_dial dial j))
      × IsPaired (new_coordinator dial node_id addrs timeout)
unfolding new_coordinator contains lookup
new_coordinator_lem dial node_id addrs timeout j =
    add_peers_lem dial addrs j
      (record {
        node_id = node_id;
        peers = [];
        conns = [];
        configured_peers = addrs;
        timeout = timeout;
      })
      (λ a. refl)
