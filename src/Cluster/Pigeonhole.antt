-- ===== src/Cluster/Pigeonhole.antt =====
-- Two groups of nodes that together outnumber the cluster share a node.
use mathlib.Core.List.{Perm, Permᴰ}
use mathlib.Core.Logic.{∥∥₁_elim}
use native.Mathlib.Nat.{ℕ_set}
use acp_kv.Prelude.{
  Bool, Bool-cases, List, String, [], arith, inl, inr, length, refl, true, ◌&&◌, ◌+◌, ◌<◌, ◌∙◌, ◌∷◌,
  ◌≡◌,
}
use acp_kv.Prelude.Map.{str_eq_refl}
use acp_kv.Replication.{contains}
use acp_kv.Replication.Counting.{count_peers}

count_peers-permᴰ :
    (p : String → Bool) {xs ys : List String} → Permᴰ xs ys → count_peers p xs ≡ count_peers p ys
count_peers-permᴰ p Permᴰ.nil = refl
count_peers-permᴰ p (Permᴰ.cons e h) = rw (e, count_peers-permᴰ p h)
count_peers-permᴰ p (Permᴰ.swap {a} {b} e f) = rw (← e, ← f) (ground arith)
count_peers-permᴰ p (Permᴰ.trans h k) = count_peers-permᴰ p h ∙ count_peers-permᴰ p k

-- The number of nodes that pass a test does not depend on their order.
pub count_peers-perm :
    (p : String → Bool) (xs ys : List String) → Perm xs ys → count_peers p xs ≡ count_peers p ys
count_peers-perm p xs ys h = ∥∥₁_elim h (ℕ_set _ _) (count_peers-permᴰ p)

-- If the nodes with `p` and the nodes with `q` are more than all, some node has both.
pub pigeonhole :
    (p q : String → Bool) (xs : List String)
    → length xs < count_peers p xs + count_peers q xs
    → (a : String) × (contains a xs ≡ true) × (p a ≡ true) × (q a ≡ true)
unfolding contains
pigeonhole p q [] h = absurd (omega arith)
pigeonhole p q (x ∷ xs) h = elim (Bool-cases (p x && q x)) [
  | inl both ↦ (x, rw (str_eq_refl x), ground arith, ground arith)
  | inr not_both ↦
      let (a, c, pa, qa) = pigeonhole p q xs (ground arith) in (a, ground arith, pa, qa)
]

pub count_peers_congr :
    (p q : String → Bool) (xs : List String)
    → ((a : String) → contains a xs ≡ true → p a ≡ q a)
    → count_peers p xs ≡ count_peers q xs
unfolding contains
count_peers_congr p q [] h = refl
count_peers_congr p q (x ∷ xs) h =
    ground (arith, str_eq_refl x, h x, count_peers_congr p q xs (λ a c. h a (rw c (ground arith))))
