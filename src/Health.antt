-- ===== src/Health.antt =====
-- internal/health/probe.go: the probe of the peers' health. A map that holds a client or a connection
-- has its target address; the map of the probes holds the peers that a goroutine checks. The mutex
-- makes each operation one step; logging is left out.
pub mod Laws
pub mod Peers
pub mod Probers
mod Tests
use acp_kv.Prelude.{
  Bool, List, Option, String, [], false, if◌then◌else◌, is_some, none, not, some, true, ℤ, ◌+◌, ◌∷◌,
  str_eq,
}
use acp_kv.Metrics.{Metrics}
use acp_kv.Prelude.Map.{Map, lookup, insert, remove, keys}
use acp_kv.Proto.{HealthResponse, Reply, answered, failed}
use acp_kv.Reconcile.Engine.{Engine, notify_healing_event}
use acp_kv.Replication.{Dial, contains, target}

pub record Probe : Type 0 where
  pub peers : Map String
  pub conns : Map String
  pub probes : List String
  pub peer_status : Map Bool
  pub healing_listener : Option Engine
  pub metrics : Metrics

-- Probe.addPeer
unfoldable pub connect : Dial → String → Probe → Bool × Probe
connect dial addr p = elim (lookup addr p.peers) [
  | some _ ↦ (true, p)
  | none ↦ elim (dial (target addr)) [
    | some e ↦ (false, p)
    | none ↦ (
      true,
      record p {
        peers = insert addr (target addr) p.peers;
        conns = insert addr (target addr) p.conns;
      },
    )
  ]
]

-- The loop of `NewProbe`: a failed connection is logged.
unfoldable pub connect_all : Dial → List String → Probe → Probe
connect_all dial [] p = p
connect_all dial (addr ∷ addrs) p = connect_all dial addrs (connect dial addr p).1

unfoldable pub new_probe : Dial → List String → Metrics → Probe
unfolding connect_all
new_probe dial peer_addrs m = connect_all dial peer_addrs (record {
  peers = [];
  conns = [];
  probes = [];
  peer_status = [];
  healing_listener = none;
  metrics = m;
})

unfoldable pub set_healing_listener : Engine → Probe → Probe
set_healing_listener e p = record p { healing_listener = some e }

-- delete(p.probes, addr)
unfoldable pub delete : String → List String → List String
delete addr [] = []
delete addr (x ∷ xs) = let rest = delete addr xs in if str_eq x addr then rest else x ∷ rest

-- Probe.removePeer
unfoldable pub disconnect : String → Probe → Probe
unfolding delete
disconnect addr p =
    let p' : Probe = record p { probes = delete addr p.probes } in
    elim (lookup addr p.conns) [
      | none ↦ p'
      | some _ ↦ record p' { peers = remove addr p.peers; conns = remove addr p.conns }
    ]

-- "remove old peers", over a list of the current ones
unfoldable pub disconnect_absent : List String → List String → Probe → Probe
disconnect_absent new_addrs [] p = p
disconnect_absent new_addrs (addr ∷ addrs) p =
    disconnect_absent new_addrs addrs (if contains addr new_addrs then p else disconnect addr p)

-- The start of `probePeer`, which a goroutine runs some time after it is launched: here, at once. The
-- map keeps one entry for a peer.
unfoldable pub start_probe : String → Probe → Probe
unfolding delete
start_probe addr p = record p { probes = addr ∷ delete addr p.probes }

-- "add new peers": a connected one is probed, one that is connected already is left alone.
unfoldable pub connect_missing : Dial → List String → Probe → Probe
connect_missing dial [] p = p
connect_missing dial (addr ∷ addrs) p =
    let (connected, p') = connect dial addr p in
    connect_missing dial addrs
      (if is_some (lookup addr p.peers) then p else if connected then start_probe addr p' else p)

-- Probe.reconcilePeers
unfoldable pub reconcile_probes : Dial → List String → Probe → Probe
unfolding disconnect_absent connect_missing
reconcile_probes dial new_peer_addrs p =
    connect_missing dial new_peer_addrs (disconnect_absent new_peer_addrs (keys p.peers) p)

-- !p.peerStatus[peerAddr]: a peer that is missing from the map was down.
unfoldable pub was_down : String → Probe → Bool
was_down addr p = elim (lookup addr p.peer_status) [ none ↦ true | some up ↦ not up ]

abbrev pub mark : String → Bool → Probe → Probe
mark addr up p = record p { peer_status = insert addr up p.peer_status }

-- "detect partition healing: peer was down, now up"
unfoldable pub notify : Bool → String → Option Engine → Option Engine
notify down addr none = none
notify down addr (some e) = some (if down then notify_healing_event addr e else e)

-- Probe.checkPeer, from the reply of the peer and the duration of the call.
unfoldable pub check_peer : Reply HealthResponse → ℤ → String → Probe → Probe
unfolding notify was_down
check_peer (failed e) rtt addr p =
    let p' = mark addr false p in
    record p' { metrics = record p.metrics { errors_health = p.metrics.errors_health + 1 } }
check_peer (answered resp) rtt addr p =
    let p' = mark addr true p in
    if not resp.healthy then mark addr false p else record p' {
      healing_listener = notify (was_down addr p) addr p.healing_listener;
      metrics = record p.metrics { health_rtt = (addr, rtt) ∷ p.metrics.health_rtt };
    }

-- A tick of `probePeer`: the check runs where the peer is still there, and its goroutine ends where not.
unfoldable pub probe_tick : Reply HealthResponse → ℤ → String → Probe → Probe
unfolding check_peer delete
probe_tick reply rtt addr p = elim (lookup addr p.peers) [
  | none ↦ record p { probes = delete addr p.probes }
  | some _ ↦ check_peer reply rtt addr p
]
