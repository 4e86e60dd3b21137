-- ===== src/Adaptive/Adjuster/Gap.antt =====
-- What a cycle of the controller means for a read that follows a write of before it
-- (internal/adaptive/adjuster.go, internal/server/server.go).
use acp_kv.Prelude.{
  +ℤ_parts, -ℤ_parts, List, String, arith, pos, ◌+ℤ◌, ◌-ℤ◌, ◌<ℤ◌, ◌≤ℤ◌, ◌↔◌, ◌⊎◌, inl,
}
use acp_kv.Adaptive.Adjuster.{Adjuster, Times, adjust_quorum}
use acp_kv.Adaptive.Adjuster.Laws.{
  IsTuned, Moved, adjust_quorum-IsTuned, stays, relaxes, tightens, total,
}
use acp_kv.Adaptive.Quorum.{AdaptiveQuorum}
use acp_kv.Metrics.Reader.{Registry}
use acp_kv.Prelude.{Bool, ℤ}
use acp_kv.Prelude.Float64.{Float64}

Moved-overlap :
    (low high : Bool) (now later : ℤ) (q q' : AdaptiveQuorum)
    → IsTuned q
    → Moved low high now later q q'
    → (q.n <ℤ q'.current_r +ℤ q.current_w)
      ↔ ((q.current_r ≤ℤ q'.current_r) ⊎ (q.n +ℤ pos 1 <ℤ total q))
Moved-overlap low high now later q q' tuned stays =
    (λ x. inl (omega arith), λ x. tuned.safe.intersects)
Moved-overlap low high now later q q' tuned (relaxes l f) =
    let up = +ℤ_parts q.current_r (pos 1) in
    (
      λ x. inl (omega (arith, up)),
      λ x. omega (
        arith,
        up,
        tuned.safe.intersects,
        +ℤ_parts q.current_r q.current_w,
        +ℤ_parts (q.current_r +ℤ pos 1) q.current_w,
      ),
    )
Moved-overlap low high now later q q' tuned (tightens h f) = ground (
  arith,
  -ℤ_parts q.current_r (pos 1),
  tuned.safe.intersects,
  +ℤ_parts q.current_r q.current_w,
  +ℤ_parts (q.current_r -ℤ pos 1) q.current_w,
  +ℤ_parts q.n (pos 1),
)

-- Where the sizes before a cycle intersect and lie in the bounds, which are not negative and below 2^62, the
-- read quorum after it and the write quorum before it share a node exactly where the cycle did not shrink the
-- read quorum, or R + W exceeds the number of nodes by two or more.
pub adjust_quorum-overlap :
    (F : Float64) (t : Times) (reg : Registry F) (peers : List String) (a : Adjuster F)
    → IsTuned a.quorum
    → let q = a.quorum in
      let q' = (adjust_quorum F t reg peers a).quorum in
      (q.n <ℤ q'.current_r +ℤ q.current_w)
      ↔ ((q.current_r ≤ℤ q'.current_r) ⊎ (q.n +ℤ pos 1 <ℤ total q))
adjust_quorum-overlap F t reg peers a tuned =
    let (_, _, moved) = adjust_quorum-IsTuned F t reg peers a tuned in
    let a' = adjust_quorum F t reg peers a in
    Moved-overlap _ _ t.checked t.adjusted a.quorum a'.quorum tuned moved
