-- ===== src/Health/Probers/Doubled.antt =====
-- A peer that is removed and found again is checked twice (internal/health/probe.go).
use acp_kv.Prelude.{
  List, String, [], arith, get_elem?, get_elem?-set_ne, get_elem?-set_self, is_some, length,
  length-append, none, refl, set, some, suc, true, zero, ℕ, ◌++◌, ◌<◌, ◌≡◌, ◌∷◌, ◌∙◌, ◌≢◌, ap,
}
use acp_kv.Health.{Probe, connect, disconnect}
use acp_kv.Health.Probers.{
  Event, Prober, Probes, add_peer, adds, checking, launched, move, moves, new_prober, remove_peer,
  removes, serve, serve_all, ticks, to_phase, waiting,
}
use acp_kv.Prelude.Map.{lookup, lookup-insert, lookup-remove, insert, str_eq_refl}
use acp_kv.Replication.{Dial, target}

module _ {ℓ} {A : Type ℓ} where
  get_elem?-snoc : (xs : List A) (v : A) → get_elem? (xs ++ v ∷ []) (length xs) ≡ some v
  get_elem?-snoc [] v = refl
  get_elem?-snoc (x ∷ xs) v = get_elem?-snoc xs v

  set-snoc : (xs : List A) (u v : A) → set (xs ++ u ∷ []) (length xs) v ≡ xs ++ v ∷ []
  set-snoc [] u v = refl
  set-snoc (x ∷ xs) u v = ap (λ l. x ∷ l) (set-snoc xs u v)

  get_elem?-append :
      (xs ys : List A) (i : ℕ) (v : A) → get_elem? xs i ≡ some v → get_elem? (xs ++ ys) i ≡ some v
  get_elem?-append [] ys i v e = absurd (cc (e))
  get_elem?-append (x ∷ xs) ys zero v e = e
  get_elem?-append (x ∷ xs) ys (suc i) v e = get_elem?-append xs ys i v e

  get_elem?_lt : (xs : List A) (i : ℕ) (v : A) → get_elem? xs i ≡ some v → i < length xs
  get_elem?_lt [] i v e = absurd (cc (e))
  get_elem?_lt (x ∷ xs) zero v e = omega arith
  get_elem?_lt (x ∷ xs) (suc i) v e = omega (arith, get_elem?_lt xs i v e)

-- A tick at a goroutine whose peer is connected.
move-waiting :
    (i : ℕ) (w : Prober) (p : Probes)
    → get_elem? p.probers i ≡ some w
    → w.phase ≡ waiting
    → is_some (lookup w.addr p.probe.peers) ≡ true
    → move i ticks p ≡ to_phase i checking w p
unfolding move acp_kv.Health.Probers.move_from
move-waiting i w p there here known = rw (move, there, here, known) refl

disconnect_gone :
    (addr conn : String) (p : Probe)
    → lookup addr p.conns ≡ some conn
    → lookup addr (disconnect addr p).peers ≡ none
unfolding disconnect
disconnect_gone addr conn p connected =
    rw (disconnect, connected) (ground (arith, lookup-remove addr addr p.peers, str_eq_refl addr))

add_peer_new :
    (dial : Dial) (addr : String) (p : Probes)
    → lookup addr p.probe.peers ≡ none
    → dial (target addr) ≡ none
    → add_peer dial addr p ≡ record p {
      probe = record p.probe {
        peers = insert addr (target addr) p.probe.peers;
        conns = insert addr (target addr) p.probe.conns;
      };
      probers = p.probers ++ new_prober addr ∷ [];
    }
unfolding add_peer connect
add_peer_new dial addr p gone ok = rw (add_peer, gone, connect, ok) refl

move-launched :
    (i : ℕ) (w : Prober) (p : Probes)
    → get_elem? p.probers i ≡ some w
    → w.phase ≡ launched
    → move i ticks p ≡ to_phase i waiting w (record p { cancels = insert w.addr i p.cancels })
unfolding move acp_kv.Health.Probers.move_from
move-launched i w p there here = rw (move, there, here) refl

-- The probe after a peer with no cancel function is removed, found again, and its goroutine has started.
abbrev found_again : String → Probes → Probes
found_again addr p =
    let q = disconnect addr p.probe in
    record p {
      probe = record q {
        peers = insert addr (target addr) q.peers;
        conns = insert addr (target addr) q.conns;
      };
      cancels = insert addr (length p.probers) p.cancels;
      probers = p.probers ++ record (new_prober addr) { phase = waiting } ∷ [];
    }

remove_unregistered :
    (addr : String) (p : Probes)
    → lookup addr p.cancels ≡ none
    → remove_peer addr p ≡ record p { probe = disconnect addr p.probe }
unfolding remove_peer
remove_unregistered addr p unregistered = rw (remove_peer, unregistered) refl

found_again_lem :
    (dial : Dial) (addr conn : String) (p : Probes)
    → lookup addr p.cancels ≡ none
    → lookup addr p.probe.conns ≡ some conn
    → dial (target addr) ≡ none
    → serve_all (removes addr ∷ adds dial addr ∷ moves (length p.probers) ticks ∷ []) p
      ≡ found_again addr p
unfolding serve_all serve
found_again_lem dial addr conn p unregistered connected ok =
    let gone = disconnect_gone addr conn p.probe connected in
    let q : Probes = record p { probe = disconnect addr p.probe } in
    let n = length p.probers in
    ap (λ s. move n ticks (add_peer dial addr s)) (remove_unregistered addr p unregistered)
    ∙ ap (move n ticks) (add_peer_new dial addr q gone ok)
    ∙ move-launched n (new_prober addr) _ (get_elem?-snoc p.probers (new_prober addr)) refl
    ∙ ap (λ ws. record (found_again addr p) { probers = ws })
        (set-snoc p.probers (new_prober addr) (record (new_prober addr) { phase = waiting }))

-- The probe after the new goroutine took a tick.
abbrev new_checks : String → Probes → Probes
new_checks addr p = record (found_again addr p) {
  probers = p.probers ++ record (new_prober addr) { phase = checking } ∷ [];
}

found_again_known :
    (addr : String) (p : Probes) → is_some (lookup addr (found_again addr p).probe.peers) ≡ true
found_again_known addr p =
    ground (
      arith,
      lookup-insert addr addr (target addr) (disconnect addr p.probe).peers,
      str_eq_refl addr,
    )

new_checks_lem :
    (addr : String) (p : Probes)
    → move (length p.probers) ticks (found_again addr p) ≡ new_checks addr p
new_checks_lem addr p =
    let v : Prober = record (new_prober addr) { phase = waiting } in
    move-waiting (length p.probers) v (found_again addr p) (get_elem?-snoc p.probers v) refl
      (found_again_known addr p)
    ∙ ap (λ ws. record (found_again addr p) { probers = ws })
        (set-snoc p.probers v (record (new_prober addr) { phase = checking }))

-- Where a goroutine of a connected peer waits for its tick and the peer has no cancel function, as for a peer
-- that the probe started with, and that tick comes after a discovery round has removed the peer and the next one
-- has added it again, that goroutine and the new one both check the peer at their next ticks. A tick of it
-- between the two rounds would end it; so the probe's interval is the longer one.
pub checks_twice :
    (dial : Dial) (addr conn : String) (i : ℕ) (w : Prober) (p : Probes)
    → get_elem? p.probers i ≡ some w
    → w.addr ≡ addr
    → w.phase ≡ waiting
    → lookup addr p.cancels ≡ none
    → lookup addr p.probe.conns ≡ some conn
    → dial (target addr) ≡ none
    → let n = length p.probers in
      let q =
        serve_all
          (removes addr ∷ adds dial addr ∷ moves n ticks ∷ moves n ticks ∷ moves i ticks ∷ [])
          p in
      (i ≢ n)
      × (get_elem? q.probers i ≡ some (record w { phase = checking }))
      × (get_elem? q.probers n ≡ some (record (new_prober addr) { phase = checking }))
unfolding serve_all serve
checks_twice dial addr conn i w p there own here unregistered connected ok =
    let u : Prober = record (new_prober addr) { phase = checking } in
    let total : serve_all
          (removes addr
            ∷ adds dial addr
            ∷ moves (length p.probers) ticks
            ∷ moves (length p.probers) ticks
            ∷ moves i ticks
            ∷ [])
          p
        ≡ to_phase i checking w (new_checks addr p) =
      ap (λ q. move i ticks (move (length p.probers) ticks q))
        (found_again_lem dial addr conn p unregistered connected ok)
      ∙ ap (move i ticks) (new_checks_lem addr p)
      ∙ move-waiting i w (new_checks addr p) (get_elem?-append p.probers (u ∷ []) i w there) here
          (rw own (found_again_known addr p)) in
    let less = get_elem?_lt p.probers i w there in
    let ne : i ≢ length p.probers = omega (arith, less) in
    (
      ne,
      ap (λ (q : Probes). get_elem? q.probers i) total
          ∙ get_elem?-set_self (p.probers ++ u ∷ []) i _
              (omega (arith, less, length-append p.probers (u ∷ []))),
      ap (λ (q : Probes). get_elem? q.probers (length p.probers)) total
          ∙ get_elem?-set_ne (p.probers ++ u ∷ []) _ ne
          ∙ get_elem?-snoc p.probers u,
    )
