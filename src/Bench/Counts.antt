-- ===== src/Bench/Counts.antt =====
-- What the counters of the load generator count (cmd/acp-adaptive-bench/main.go,
-- benchmark/adaptive/client_pool.go).
use acp_kv.Prelude.{
  Bool, Bool-cases, List, [], add64, arith, false, if◌then◌else◌, inl, inr, length, not, pos, refl,
  select, suc, true, ℕ, ℤ, ◌+◌, ◌<◌, ◌^◌, ◌∷◌, ◌≡◌, ap, ◌∙◌, add64_parts, eq_of_parts,
}
use acp_kv.Bench.Stats.{
  BenchmarkStats, Operation, has_error, is_read, no_stats, reads, record_operation,
  record_operations, writes,
}
use acp_kv.Bench.Pool.{grpc_get, grpc_put}
use acp_kv.Proto.{answered, failed}

-- Whether the call was answered, whatever the answer.
abbrev pub is_answered : Operation × ℤ → Bool
is_answered (reads (answered resp), l) = true
is_answered (reads (failed e), l) = false
is_answered (writes (answered resp), l) = true
is_answered (writes (failed e), l) = false

abbrev pub reads_one : Operation × ℤ → Bool
reads_one (o, l) = is_read o

has_error-answered : (o : Operation) (l : ℤ) → has_error o ≡ not (is_answered (o, l))
unfolding has_error grpc_get grpc_put
has_error-answered (reads (answered resp)) l = refl
has_error-answered (reads (failed e)) l = refl
has_error-answered (writes (answered resp)) l = refl
has_error-answered (writes (failed e)) l = refl

add_one : (a : ℕ) → suc a < 2 ^ 63 → add64 (pos a) (pos 1) ≡ pos (suc a)
add_one a h =
    eq_of_parts (add64 (pos a) (pos 1)) (pos (suc a)) (ground (arith, add64_parts (pos a) (pos 1)))

-- A counter that an operation raises where `hit` holds of it.
IsCounter : (BenchmarkStats → ℤ) → (Operation × ℤ → Bool) → Type 0
IsCounter field hit =
    (o : Operation) (l : ℤ) (s : BenchmarkStats)
    → field (record_operation o l s) ≡ (if hit (o, l) then add64 (field s) (pos 1) else field s)

counter_lem :
    (field : BenchmarkStats → ℤ) (hit : Operation × ℤ → Bool) (os : List (Operation × ℤ)) (n : ℕ)
    (s : BenchmarkStats)
    → IsCounter field hit
    → field s ≡ pos n
    → n + length os < 2 ^ 63
    → field (record_operations os s) ≡ pos (n + length (select hit os))
unfolding record_operations IsCounter
counter_lem field hit [] n s counts e small = e ∙ ap pos (omega arith)
counter_lem field hit ((o, l) ∷ os) n s counts e small = elim (Bool-cases (hit (o, l))) [
  | inl hits ↦ rw hits (
      counter_lem field hit os (suc n) (record_operation o l s) counts
        (counts o l s ∙ rw (hits, e) (add_one n (omega arith))) (omega arith)
      ∙ ap pos (omega arith))
  | inr misses ↦ rw misses (
      counter_lem field hit os n (record_operation o l s) counts
        (counts o l s ∙ rw (misses, e) refl) (omega arith))
]

counted :
    (field : BenchmarkStats → ℤ) (hit : Operation × ℤ → Bool) (os : List (Operation × ℤ))
    → IsCounter field hit
    → field no_stats ≡ pos 0
    → length os < 2 ^ 63
    → field (record_operations os no_stats) ≡ pos (length (select hit os))
counted field hit os counts e small =
    counter_lem field hit os 0 no_stats counts e (omega arith) ∙ ap pos (omega arith)

-- Over fewer than 2^63 operations, the load generator counts each; as successes those whose call was
-- answered, whatever the answer says, and as failures the others; and as reads and writes what they were.
pub record_operations_lem :
    (os : List (Operation × ℤ))
    → length os < 2 ^ 63
    → let s = record_operations os no_stats in
      (s.total_ops ≡ pos (length (select (λ o. true) os)))
      × (s.success_ops ≡ pos (length (select is_answered os)))
      × (s.failed_ops ≡ pos (length (select (λ o. not (is_answered o)) os)))
      × (s.read_ops ≡ pos (length (select reads_one os)))
      × (s.write_ops ≡ pos (length (select (λ o. not (reads_one o)) os)))
unfolding record_operation IsCounter
record_operations_lem os small = (
  counted (λ s. s.total_ops) (λ o. true) os (λ o l s. refl) refl small,
  counted (λ s. s.success_ops) is_answered os (λ o l s. rw (has_error-answered o l) (ground arith))
      refl small,
  counted (λ s. s.failed_ops) (λ o. not (is_answered o)) os
      (λ o l s. rw (has_error-answered o l) refl) refl small,
  counted (λ s. s.read_ops) reads_one os (λ o l s. refl) refl small,
  counted (λ s. s.write_ops) (λ o. not (reads_one o)) os (λ o l s. ground arith) refl small,
)
