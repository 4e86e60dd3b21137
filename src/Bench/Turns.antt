-- ===== src/Bench/Turns.antt =====
-- The load generator takes its connections in turn (ClientPool.Get of
-- benchmark/adaptive/client_pool.go).
use acp_kv.Prelude.{
  arith, get_elem?, length, refl, suc, zero, ℕ, ◌%◌, ◌+◌, ◌<◌, ◌==◌, ◌^◌, ◌∙◌, ◌≡◌, ap, false,
}
use native.Mathlib.Nat.{mod-eq_of_lt}
use acp_kv.Bench.Pool.{ClientPool, next_client}
use acp_kv.Prelude.Turns.{turn}

-- The pool after a number of calls of `Get`.
abbrev pub after_calls : ℕ → ClientPool → ClientPool
after_calls zero p = p
after_calls (suc k) p = after_calls k (next_client p).1

next_client_lem :
    (p : ClientPool)
    → 0 < length p.clients
    → p.index + 1 < 2 ^ 32
    → ((next_client p).0 ≡ get_elem? p.clients ((p.index + 1) % length p.clients))
      × ((next_client p).1 ≡ record p { index = p.index + 1 })
unfolding next_client
next_client_lem p some_client small =
    let e : (length p.clients == 0) ≡ false = ground arith in
    let i : (p.index + 1) % 2 ^ 32 ≡ p.index + 1 = mod-eq_of_lt small in rw (e, i) (refl, refl)

after_calls-index :
    (k : ℕ) (p : ClientPool)
    → 0 < length p.clients
    → p.index + k < 2 ^ 32
    → after_calls k p ≡ record p { index = p.index + k }
after_calls-index zero p some_client small = ap (λ i. record p { index = i }) (omega arith)
after_calls-index (suc k) p some_client small =
    let (_, e) = next_client_lem p some_client (omega arith) in
    rw e (
      after_calls-index k (record p { index = p.index + 1 }) some_client (omega arith)
      ∙ ap (λ i. record p { index = i }) (omega arith))

-- Every connection of a pool is taken within the next as many calls of `Get` as there are connections,
-- as long as the counter, a uint32, does not wrap in them.
next_client-turn :
    (p : ClientPool) (j : ℕ)
    → j < length p.clients
    → p.index + length p.clients < 2 ^ 32
    → (k : ℕ) × (k < length p.clients) × ((next_client (after_calls k p)).0 ≡ get_elem? p.clients j)
next_client-turn p j h small =
    let (k, few, e) = turn (p.index + 1) (length p.clients) j h in
    let later = after_calls-index k p (omega arith) (omega arith) in
    let (pick, _) =
      next_client_lem (record p { index = p.index + k }) (omega arith) (omega arith) in
    (
      k,
      few,
      rw later (pick ∙ ap (get_elem? p.clients) (ap (λ i. i % length p.clients) (omega arith) ∙ e)),
    )
