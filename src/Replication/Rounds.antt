-- ===== src/Replication/Rounds.antt =====
-- What the rounds of discovery leave (StartPeerDiscovery of internal/replication/coordinator.go).
use acp_kv.Prelude.{
  sym, List, String, [], ◌∷◌, ◌++◌, ◌⊎◌, ◌↔◌, inl, inr, true, ◌≡◌, arith, refl, subst, ◌&&◌, ◌||◌,
  Bool,
}
use acp_kv.Failure.{Error}
use acp_kv.Replication.{Coordinator, Dial, contains, reconcile_peers}
use acp_kv.Replication.Discovery.{
  Resolver, peers_at, discovered, discover_peers_dns, apply_discovered, run_discovery, service_name,
}
use acp_kv.Replication.Peers.{IsPaired, can_dial, is_connected, reconcile_peers_lem}
use acp_kv.Replication.Pods.{IsPodAmong, peers_at_iff}

-- What a round that looked up the service does to the connection to `a`: nothing at all where the lookup fails,
-- and else the node is connected to `a` exactly where that is another pod of the service which it was connected
-- to before or can dial.
abbrev pub IsRound :
    Resolver
    → Dial
    → String
    → String
    → String
    → String
    → Error ⊎ List String
    → Coordinator
    → Coordinator
    → Type 0
IsRound r dial node_id svc ns a (inl e) c c' = c' ≡ c
IsRound r dial node_id svc ns a (inr ips) c c' =
    (is_connected a c' ≡ true)
    ↔ (IsPodAmong r node_id svc ns a ips × ((is_connected a c ≡ true) ⊎ (can_dial dial a ≡ true)))

both_iff :
    (x p q s : Bool) → x ≡ (p && (q || s)) → (x ≡ true) ↔ ((p ≡ true) × ((q ≡ true) ⊎ (s ≡ true)))
both_iff x p q s e = ground (arith, e)

round_lem :
    (r : Resolver) (dial : Dial) (node_id svc ns a : String) (found : Error ⊎ List String)
    (c : Coordinator)
    → IsPaired c
    → let c' = apply_discovered dial (discovered r node_id svc ns found) c in
      IsPaired c' × IsRound r dial node_id svc ns a found c c'
unfolding apply_discovered discovered
round_lem r dial node_id svc ns a (inl e) c paired = (paired, refl)
round_lem r dial node_id svc ns a (inr ips) c paired =
    let peers = peers_at r node_id svc ns ips in
    let (e, paired') = reconcile_peers_lem dial peers a c paired in
    let (found, listed) = peers_at_iff r node_id svc ns a ips in
    let (up, down) =
      both_iff (is_connected a (reconcile_peers dial peers c)) (contains a peers) (is_connected a c)
        (can_dial dial a) e in
    (
      paired',
      (
        λ h. let (there, reached) = up h in (found there, reached),
        λ (pod, reached). down (listed pod, reached),
      ),
    )

run_discovery-IsPaired :
    (ticks : List (Resolver × Dial)) (node_id svc ns : String) (c : Coordinator)
    → IsPaired c
    → IsPaired (run_discovery node_id svc ns ticks c)
unfolding run_discovery discover_peers_dns
run_discovery-IsPaired [] node_id svc ns c paired = paired
run_discovery-IsPaired ((r, dial) ∷ ticks) node_id svc ns c paired =
    let found = r.lookup_host (service_name svc ns) in
    run_discovery-IsPaired ticks node_id svc ns
      (apply_discovered dial (discovered r node_id svc ns found) c)
      (round_lem r dial node_id svc ns "" found c paired).0

run_discovery-append :
    (ticks later : List (Resolver × Dial)) (node_id svc ns : String) (c : Coordinator)
    → run_discovery node_id svc ns (ticks ++ later) c
      ≡ run_discovery node_id svc ns later (run_discovery node_id svc ns ticks c)
unfolding run_discovery
run_discovery-append [] later node_id svc ns c = refl
run_discovery-append ((r, dial) ∷ ticks) later node_id svc ns c =
    run_discovery-append ticks later node_id svc ns
      (apply_discovered dial (discover_peers_dns r node_id svc ns) c)

-- After any number of discovery rounds, each with answers of its own, one more leaves everything as it was where
-- the lookup of the service fails. Else the node is then connected to exactly those other pods of the service,
-- as the resolver names them at the IPs of the service, that it was connected to before the round or can dial.
-- The two maps keep the same keys.
pub run_discovery_lem :
    (ticks : List (Resolver × Dial)) (r : Resolver) (dial : Dial) (node_id svc ns a : String)
    (start : Coordinator)
    → IsPaired start
    → let c = run_discovery node_id svc ns ticks start in
      let c' = run_discovery node_id svc ns (ticks ++ (r, dial) ∷ []) start in
      IsPaired c' × IsRound r dial node_id svc ns a (r.lookup_host (service_name svc ns)) c c'
unfolding run_discovery discover_peers_dns
run_discovery_lem ticks r dial node_id svc ns a start paired =
    let c = run_discovery node_id svc ns ticks start in
    let found = r.lookup_host (service_name svc ns) in
    subst (λ c'. IsPaired c' × IsRound r dial node_id svc ns a found c c')
      (sym (run_discovery-append ticks ((r, dial) ∷ []) node_id svc ns start))
      (round_lem r dial node_id svc ns a found c
        (run_discovery-IsPaired ticks node_id svc ns start paired))
