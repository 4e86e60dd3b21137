-- ===== src/Health/Probers/Quiet.antt =====
-- A peer that was removed is not checked any more (internal/health/probe.go).
use acp_kv.Prelude.{
  All, All-append, All-set, Bool-cases, false, true, set, ℤ, List, Option-cases, String, [],
  get_elem?, if◌then◌else◌, inl, inr, map, none, ap, subst, arith, refl, some, str_eq_iff, suc,
  zero, ℕ, ◌≡◌, ◌≢◌, ◌∙◌, ◌∷◌, ◌||◌,
}
use acp_kv.Health.{Probe, check_peer, connect, disconnect}
use acp_kv.Health.Probers.{
  Event, Phase, Prober, Probes, Turn, add_peer, adds, cancel, checking, ended, exit, hears,
  launched, leaving, legacy_prober, move, move_from, new_prober, moves, remove_peer, removes,
  returns, serve, serve_all, start, starts, stop, stops, finishes, ticks, waiting,
}
use acp_kv.Proto.{HealthResponse, Reply, answered, failed}
use acp_kv.Prelude.Map.{lookup, lookup-insert, lookup-remove, keys}
use acp_kv.Replication.{Dial, target}

-- No goroutine is between a tick and the end of its check of the peer.
abbrev pub IsIdle : String → Prober → Type 0
IsIdle addr w = w.addr ≡ addr → w.phase ≢ checking

-- The peer is not connected, and none of its checks is on its way.
abbrev pub IsGone : String → Probes → Type 0
IsGone addr p = (lookup addr p.probe.peers ≡ none) × All (IsIdle addr) p.probers

-- The event does not connect the peer.
abbrev pub IsNotOf : String → Event → Type 0
IsNotOf addr (adds dial k) = k ≢ addr
IsNotOf addr starts = Unit
IsNotOf addr (removes k) = Unit
IsNotOf addr stops = Unit
IsNotOf addr finishes = Unit
IsNotOf addr (moves i turn) = Unit

-- The peer stays gone, and its status stays what it was.
abbrev Keeps : String → Probes → Probes → Type 0
Keeps addr p p' =
    IsGone addr p' × (lookup addr p'.probe.peer_status ≡ lookup addr p.probe.peer_status)

get_elem?-All :
    (P : Prober → Type 0) (ws : List Prober) (i : ℕ) (w : Prober)
    → All P ws
    → get_elem? ws i ≡ some w
    → P w
get_elem?-All P [] i w h e = absurd (cc (e))
get_elem?-All P (x ∷ ws) zero w (h, hs) e = subst P (cc (e)) h
get_elem?-All P (x ∷ ws) (suc i) w (h, hs) e = get_elem?-All P ws i w hs e

legacy-IsIdle : (addr : String) (ks : List String) → All (IsIdle addr) (map legacy_prober ks)
legacy-IsIdle addr [] = tt
legacy-IsIdle addr (k ∷ ks) = (λ e c. cc (c), legacy-IsIdle addr ks)

start-Keeps : (addr : String) (p : Probes) → IsGone addr p → Keeps addr p (start p)
unfolding start
start-Keeps addr p (gone, idle) = (
  (gone, All-append (IsIdle addr) p.probers _ idle (legacy-IsIdle addr (keys p.probe.peers))),
  refl,
)

lookup-disconnect :
    (k addr : String) (p : Probe)
    → lookup addr p.peers ≡ none
    → (lookup addr (disconnect k p).peers ≡ none) × ((disconnect k p).peer_status ≡ p.peer_status)
unfolding disconnect
lookup-disconnect k addr p gone = elim (Option-cases (lookup k p.conns)) [
  | inl e ↦ rw (disconnect, e) (gone, refl)
  | inr (v, e) ↦ rw (disconnect, e) (ground (arith, gone, lookup-remove k addr p.peers), refl)
]

cancel-IsIdle :
    (addr : String) (i : ℕ) (ws : List Prober)
    → All (IsIdle addr) ws
    → All (IsIdle addr) (cancel i ws)
unfolding cancel
cancel-IsIdle addr i ws idle = elim (Option-cases (get_elem? ws i)) [
  | inl e ↦ rw (cancel, e) idle
  | inr (w, e) ↦
      rw (cancel, e) (All-set (IsIdle addr) ws i _ (get_elem?-All (IsIdle addr) ws i w idle e) idle)
]

remove_peer-Keeps : (addr k : String) (p : Probes) → IsGone addr p → Keeps addr p (remove_peer k p)
unfolding remove_peer
remove_peer-Keeps addr k p (gone, idle) =
    let (g, s) = lookup-disconnect k addr p.probe gone in
    elim (Option-cases (lookup k p.cancels)) [
      | inl e ↦ rw (remove_peer, e) ((g, idle), ap (lookup addr) s)
      | inr (i, e) ↦
          rw (remove_peer, e) ((g, cancel-IsIdle addr i p.probers idle), ap (lookup addr) s)
    ]

add_peer-Keeps :
    (addr k : String) (dial : Dial) (p : Probes)
    → k ≢ addr
    → IsGone addr p
    → Keeps addr p (add_peer dial k p)
unfolding add_peer connect
add_peer-Keeps addr k dial p ne (gone, idle) = elim (Option-cases (lookup k p.probe.peers)) [
  | inr (v, e) ↦ rw (add_peer, e) ((gone, idle), refl)
  | inl e ↦ elim (Option-cases (dial (target k))) [
    | inr (err, d) ↦ rw (add_peer, e, connect, d) ((gone, idle), refl)
    | inl d ↦
        rw (add_peer, e, connect, d)
          (
            (
              ground (
                arith,
                gone,
                ne,
                lookup-insert k addr (target k) p.probe.peers,
                str_eq_iff k addr,
              ),
              All-append (IsIdle addr) p.probers (new_prober k ∷ []) idle ((λ same c. cc (c), tt)),
            ),
            refl,
          )
  ]
]

-- A check of another peer.
check_peer_other :
    (reply : Reply HealthResponse) (rtt : ℤ) (k addr : String) (p : Probe)
    → k ≢ addr
    → ((check_peer reply rtt k p).peers ≡ p.peers)
      × (lookup addr (check_peer reply rtt k p).peer_status ≡ lookup addr p.peer_status)
unfolding check_peer
check_peer_other (failed e) rtt k addr p ne =
    (refl, ground (arith, ne, lookup-insert k addr false p.peer_status, str_eq_iff k addr))
check_peer_other (answered resp) rtt k addr p ne = elim (Bool-cases resp.healthy) [
  | inl up ↦
      rw up (refl, ground (arith, ne, lookup-insert k addr true p.peer_status, str_eq_iff k addr))
  | inr down ↦
      rw down
        (refl, ground (arith, ne, lookup-insert k addr false p.peer_status, str_eq_iff k addr))
]

exit-ne : (w : Prober) → exit w ≢ checking
exit-ne w c = elim (Bool-cases w.legacy) [ inl e ↦ cc (rw e at c) | inr e ↦ cc (rw e at c) ]

-- A goroutine that goes on to another place.
set-Keeps :
    (addr : String) (i : ℕ) (v : Prober) (p : Probes)
    → IsIdle addr v
    → IsGone addr p
    → Keeps addr p (record p { probers = set p.probers i v })
set-Keeps addr i v p own (gone, idle) = ((gone, All-set (IsIdle addr) p.probers i v own idle), refl)

move_from-Keeps :
    (addr : String) (phase : Phase) (i : ℕ) (turn : Turn) (w : Prober) (p : Probes)
    → w.phase ≡ phase
    → IsIdle addr w
    → IsGone addr p
    → Keeps addr p (move_from phase i turn w p)
unfolding move_from
move_from-Keeps addr launched i turn w p here own (gone, idle) =
    set-Keeps addr i _ p (λ same c. cc (c)) (gone, idle)
move_from-Keeps addr waiting i ticks w p here own (gone, idle) =
    set-Keeps addr i _ p
      (λ same c. let q : lookup w.addr p.probe.peers ≡ none = rw same gone in exit-ne w (rw q at c))
      (gone, idle)
move_from-Keeps addr waiting i hears w p here own (gone, idle) =
    elim (Bool-cases (if w.legacy then p.stopped else w.cancelled || p.finished)) [
      | inl e ↦ rw e (set-Keeps addr i _ p (λ same c. exit-ne w c) (gone, idle))
      | inr e ↦ rw e ((gone, idle), refl)
    ]
move_from-Keeps addr waiting i (returns reply rtt) w p here own (gone, idle) = ((gone, idle), refl)
move_from-Keeps addr checking i (returns reply rtt) w p here own (gone, idle) =
    let (same_peers, same_status) =
      check_peer_other reply rtt w.addr addr p.probe (λ same. own same here) in
    ((rw same_peers gone, All-set (IsIdle addr) p.probers i _ (λ same c. cc (c)) idle), same_status)
move_from-Keeps addr checking i ticks w p here own (gone, idle) = ((gone, idle), refl)
move_from-Keeps addr checking i hears w p here own (gone, idle) = ((gone, idle), refl)
move_from-Keeps addr leaving i turn w p here own (gone, idle) =
    set-Keeps addr i _ p (λ same c. cc (c)) (gone, idle)
move_from-Keeps addr ended i turn w p here own (gone, idle) = ((gone, idle), refl)

serve-Keeps :
    (addr : String) (e : Event) (p : Probes)
    → IsNotOf addr e
    → IsGone addr p
    → Keeps addr p (serve e p)
unfolding serve stop move
serve-Keeps addr starts p other gone = start-Keeps addr p gone
serve-Keeps addr (adds dial k) p other gone = add_peer-Keeps addr k dial p other gone
serve-Keeps addr (removes k) p other gone = remove_peer-Keeps addr k p gone
serve-Keeps addr stops p other gone = (gone, refl)
serve-Keeps addr finishes p other gone = (gone, refl)
serve-Keeps addr (moves i turn) p other (gone, idle) = elim (Option-cases (get_elem? p.probers i)) [
  | inl e ↦ rw (move, e) ((gone, idle), refl)
  | inr (w, e) ↦
      rw (move, e)
        (move_from-Keeps addr w.phase i turn w p refl
          (get_elem?-All (IsIdle addr) p.probers i w idle e) (gone, idle))
]

-- Once a peer is gone and none of its checks is on its way, nothing that happens to the probe changes what it
-- knows of that peer's status or checks it again, until a discovery round connects it: neither ticks of
-- goroutines that still run for it, nor replies, starts or other peers that come and go, in any order.
pub serve_all-Keeps :
    (addr : String) (es : List Event) (p : Probes)
    → All (IsNotOf addr) es
    → IsGone addr p
    → IsGone addr (serve_all es p)
      × (lookup addr (serve_all es p).probe.peer_status ≡ lookup addr p.probe.peer_status)
unfolding serve_all
serve_all-Keeps addr [] p others gone = (gone, refl)
serve_all-Keeps addr (e ∷ es) p (other, others) gone =
    let (next, same) = serve-Keeps addr e p other gone in
    let (last, kept) = serve_all-Keeps addr es (serve e p) others next in (last, kept ∙ same)
