-- ===== src/Health/Probers.antt =====
-- internal/health/probe.go: the goroutines that check the peers, one access at a time and in any order. The
-- end of a check, which reads and writes the peer's status, is one access.
pub mod Quiet
pub mod Doubled
use acp_kv.Prelude.{
  Bool, List, Option, String, [], false, get_elem?, if◌then◌else◌, is_some, map, none, set, some,
  true, ℕ, ℤ, ◌++◌, ◌∷◌, ◌||◌,
}
use acp_kv.Health.{Probe, check_peer, connect, disconnect}
use acp_kv.Prelude.Map.{Map, insert, keys, lookup, remove}
use acp_kv.Proto.{HealthResponse, Reply}
use acp_kv.Replication.{Dial}

-- Where a goroutine stands: `probePeer` before it enters its cancel function, at its select, between a tick
-- and the end of the check, and before the deferred delete; or it has returned.
pub data Phase : Type 0 where
  launched : Phase
  waiting : Phase
  checking : Phase
  leaving : Phase
  ended : Phase

-- A goroutine of `probePeerLegacy` or of `probePeer`, which knows whether its context was cancelled.
pub record Prober : Type 0 where
  pub addr : String
  pub legacy : Bool
  pub phase : Phase
  pub cancelled : Bool

-- The probe with its goroutines, each known by its place. `cancels` is the map `probes`, where a cancel
-- function is the place of its goroutine; `stopped` is whether `stopCh` is closed,
-- and `finished` whether the context is cancelled that `StartPeerDiscovery` runs under.
pub record Probes : Type 0 where
  pub probe : Probe
  pub cancels : Map ℕ
  pub stopped : Bool
  pub finished : Bool
  pub probers : List Prober

abbrev pub legacy_prober : String → Prober
legacy_prober addr = record { addr = addr; legacy = true; phase = waiting; cancelled = false }

abbrev pub new_prober : String → Prober
new_prober addr = record { addr = addr; legacy = false; phase = launched; cancelled = false }

-- Probe.Start
unfoldable pub start : Probes → Probes
start p = record p { probers = p.probers ++ map legacy_prober (keys p.probe.peers) }

-- cancel()
unfoldable pub cancel : ℕ → List Prober → List Prober
cancel i ws = elim (get_elem? ws i) [
  | none ↦ ws
  | some w ↦ set ws i (record w { cancelled = true })
]

-- Probe.removePeer
unfoldable pub remove_peer : String → Probes → Probes
unfolding cancel disconnect
remove_peer addr p = elim (lookup addr p.cancels) [
  | none ↦ record p { probe = disconnect addr p.probe }
  | some i ↦ record p {
    probe = disconnect addr p.probe;
    cancels = remove addr p.cancels;
    probers = cancel i p.probers;
  }
]

-- The loop body of "add new peers" of `reconcilePeers`: `addPeer` and, where it connects, the goroutine.
unfoldable pub add_peer : Dial → String → Probes → Probes
unfolding connect
add_peer dial addr p =
    let (connected, probe) = connect dial addr p.probe in
    if is_some (lookup addr p.probe.peers)
    then p
    else if connected
    then record p { probe = probe; probers = p.probers ++ new_prober addr ∷ [] }
    else p

-- Probe.Stop closes the channel first; it then waits, and closes the connections.
unfoldable pub stop : Probes → Probes
stop p = record p { stopped = true }

-- What a goroutine meets: a tick, a closed channel or a cancelled context, or the reply to its check.
pub data Turn : Type 0 where
  ticks : Turn
  hears : Turn
  returns : Reply HealthResponse → ℤ → Turn

-- What a goroutine does when it returns: `wg.Done`, or the deferred delete.
abbrev pub exit : Prober → Phase
exit w = if w.legacy then ended else leaving

abbrev pub to_phase : ℕ → Phase → Prober → Probes → Probes
to_phase i phase w p = record p { probers = set p.probers i (record w { phase = phase }) }

-- The next access of the i-th goroutine, which is `w` and stands there; a turn that does not fit its place
-- changes nothing.
unfoldable pub move_from : Phase → ℕ → Turn → Prober → Probes → Probes
move_from launched i turn w p =
    to_phase i waiting w (record p { cancels = insert w.addr i p.cancels })
move_from waiting i ticks w p =
    to_phase i (if is_some (lookup w.addr p.probe.peers) then checking else exit w) w p
move_from waiting i hears w p =
    if (if w.legacy then p.stopped else w.cancelled || p.finished)
    then to_phase i (exit w) w p
    else p
move_from waiting i (returns reply rtt) w p = p
move_from checking i (returns reply rtt) w p =
    to_phase i waiting w (record p { probe = check_peer reply rtt w.addr p.probe })
move_from checking i ticks w p = p
move_from checking i hears w p = p
move_from leaving i turn w p = to_phase i ended w (record p { cancels = remove w.addr p.cancels })
move_from ended i turn w p = p

unfoldable pub move : ℕ → Turn → Probes → Probes
unfolding move_from
move i turn p = elim (get_elem? p.probers i) [ none ↦ p | some w ↦ move_from w.phase i turn w p ]

-- What may happen to the probe, and in which order is open.
pub data Event : Type 0 where
  starts : Event
  adds : Dial → String → Event
  removes : String → Event
  stops : Event
  finishes : Event
  moves : ℕ → Turn → Event

unfoldable pub serve : Event → Probes → Probes
unfolding start add_peer remove_peer stop move
serve starts p = start p
serve (adds dial addr) p = add_peer dial addr p
serve (removes addr) p = remove_peer addr p
serve stops p = stop p
serve finishes p = record p { finished = true }
serve (moves i turn) p = move i turn p

unfoldable pub serve_all : List Event → Probes → Probes
unfolding serve
serve_all [] p = p
serve_all (e ∷ es) p = serve_all es (serve e p)
