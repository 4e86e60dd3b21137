-- ===== src/Adaptive/Adjuster/Laws.antt =====
-- A cycle of the controller keeps the quorum sizes safe (internal/adaptive/adjuster.go).
use acp_kv.Prelude.{
  add64, false, pos, some, ℤ, ◌+ℤ◌, ◌-ℤ◌, ◌≡◌, +ℤ_parts, -ℤ_parts, Bool, add64_eq, arith, none,
  pos_part, sub64, sub64_eq, true, ◌<◌, ◌^◌, ◌≤ℤ◌, ◌⊎◌, Option-cases, inl, inr, List, String, refl,
  Bool-cases, Option, eq_of_parts, [], ◌∷◌,
}
use acp_kv.Adaptive.Adjuster.{
  Reason, Times, apply_adjustment, Adjuster, adjust_quorum, decide, relax, tighten, run_cycles,
}
use acp_kv.Adaptive.Ccs.{get_smoothed_ccs}
use acp_kv.Adaptive.Quorum.{validate, get_r, get_w, AdaptiveQuorum, is_in_lockout, set_quorum}
use acp_kv.Adaptive.Quorum.Safe.{
  HasBounds, IsInBounds, IsSafe, set_quorum-validate, set_quorum_accepted, validate-IsSafe,
}
use acp_kv.Metrics.{Metrics}
use acp_kv.Metrics.Reader.{Registry}
use acp_kv.Prelude.Float64.{Float64}

-- The sizes intersect and lie in bounds that the operator configured in range.
pub record IsTuned (q : AdaptiveQuorum) : Type 0 where
  pub bounds : HasBounds q
  pub safe : IsSafe q
  pub inside : IsInBounds q

-- R + W
abbrev pub total : AdaptiveQuorum → ℤ
total q = q.current_r +ℤ q.current_w

-- One step from `q`: nothing, or one unit moved between the sizes, which is outside the lockout and
-- where the score was `low` or `high`.
pub data Moved (low high : Bool) (now later : ℤ) (q : AdaptiveQuorum)
    : AdaptiveQuorum → Type 0 where
  stays : Moved low high now later q q
  relaxes :
      low ≡ true
      → is_in_lockout now q ≡ false
      → Moved low high now later q (record q {
        current_r = q.current_r +ℤ pos 1;
        current_w = q.current_w -ℤ pos 1;
        last_adjust_time = later;
      })
  tightens :
      high ≡ true
      → is_in_lockout now q ≡ false
      → Moved low high now later q (record q {
        current_r = q.current_r -ℤ pos 1;
        current_w = q.current_w +ℤ pos 1;
        last_adjust_time = later;
      })

apply_cases :
    (t : Times) (r w : ℤ) (reason : Reason) (q : AdaptiveQuorum) (m : Metrics)
    → let q' = (apply_adjustment t (some (r, w, reason)) (q, m)).0 in
      (q' ≡ q)
      ⊎ ((q' ≡ record q { current_r = r; current_w = w; last_adjust_time = t.adjusted })
          × (validate r w q ≡ none))
unfolding apply_adjustment
apply_cases t r w reason q m = elim (Option-cases (set_quorum t.applied t.adjusted r w q m).0) [
  | inl accepted ↦
      let (e, ok) = set_quorum_accepted t.applied t.adjusted r w q m accepted in
      inr (rw (ok, e) refl, ok)
  | inr (x, refused) ↦
      let (e, same, kept) = set_quorum-validate t.applied t.adjusted r w q m in
      inl ground (arith, kept)
]

pub up_fits : (a : ℤ) → pos 0 ≤ℤ a → pos_part a < 2 ^ 62 → add64 a (pos 1) ≡ a +ℤ pos 1
up_fits a h k = add64_eq a (pos 1) (ground (arith, +ℤ_parts a (pos 1)))

pub down_fits : (a : ℤ) → pos 0 ≤ℤ a → pos_part a < 2 ^ 62 → sub64 a (pos 1) ≡ a -ℤ pos 1
down_fits a h k = sub64_eq a (pos 1) (ground (arith, -ℤ_parts a (pos 1)))

-- What a cycle does to the quorum, given the score that it computed.
pub decided :
    (F : Float64) (t : Times) (reg : Registry F) (peers : List String) (a : Adjuster F)
    → let a' = adjust_quorum F t reg peers a in
      a'.quorum
      ≡ (apply_adjustment t
          (decide F t.checked (get_smoothed_ccs F a'.ccs_computer) a)
          (a.quorum, record a.metrics { hysteresis_active = is_in_lockout t.gauged a.quorum })).0
unfolding adjust_quorum get_smoothed_ccs
decided F t reg peers a = refl

-- Sizes with the same sum that pass validation keep the quorum tuned.
apply_adjustment-IsTuned :
    (t : Times) (r w : ℤ) (reason : Reason) (q : AdaptiveQuorum) (m : Metrics)
    → IsTuned q
    → r +ℤ w ≡ total q
    → let q' = (apply_adjustment t (some (r, w, reason)) (q, m)).0 in
      (IsTuned q' × (total q' ≡ total q))
      × ((q' ≡ q) ⊎ (q' ≡ record q { current_r = r; current_w = w; last_adjust_time = t.adjusted }))
apply_adjustment-IsTuned t r w reason q m tuned sum = elim (apply_cases t r w reason q m) [
  | inl same ↦ (rw same (tuned, refl), inl same)
  | inr (new, ok) ↦
      let (safe, inside) = validate-IsSafe t.adjusted r w q tuned.bounds ok in
      (rw new (record { bounds = tuned.bounds; safe = safe; inside = inside }, sum), inr new)
]

decide_cases :
    (F : Float64) (now : ℤ) (smoothed : F.Carrier) (a : Adjuster F)
    → IsTuned a.quorum
    → let q = a.quorum in
      (decide F now smoothed a ≡ none)
      ⊎ ((decide F now smoothed a ≡ some (q.current_r +ℤ pos 1, q.current_w -ℤ pos 1, relax))
          × (F.less smoothed a.relax_threshold ≡ true)
          × (is_in_lockout now q ≡ false))
      ⊎ ((decide F now smoothed a ≡ some (q.current_r -ℤ pos 1, q.current_w +ℤ pos 1, tighten))
          × (F.less a.tighten_threshold smoothed ≡ true)
          × (is_in_lockout now q ≡ false))
unfolding decide get_r get_w
decide_cases F now smoothed a tuned =
    let b = tuned.bounds in
    let s = tuned.safe in
    let i = tuned.inside in
    let r_up = up_fits a.quorum.current_r (ground arith) s.r_fits in
    let w_up = up_fits a.quorum.current_w (ground arith) s.w_fits in
    let r_down = down_fits a.quorum.current_r (ground arith) s.r_fits in
    let w_down = down_fits a.quorum.current_w (ground arith) s.w_fits in
    rw (r_up, w_up, r_down, w_down)
      (elim (Bool-cases (is_in_lockout now a.quorum)) [
        | inl locked ↦ inl (rw locked refl)
        | inr free ↦ elim (Bool-cases (F.less smoothed a.relax_threshold)) [
          | inl low ↦ inr (inl (rw (free, low) refl, low, free))
          | inr not_low ↦ elim (Bool-cases (F.less a.tighten_threshold smoothed)) [
            | inl high ↦ inr (inr (rw (free, not_low, high) refl, high, free))
            | inr not_high ↦ inl (rw (free, not_low, not_high) refl)
          ]
        ]
      ])

sum_relaxed : (r w : ℤ) → (r +ℤ pos 1) +ℤ (w -ℤ pos 1) ≡ r +ℤ w
sum_relaxed r w = eq_of_parts ((r +ℤ pos 1) +ℤ (w -ℤ pos 1)) (r +ℤ w) (
    ground (
      arith,
      +ℤ_parts r (pos 1),
      -ℤ_parts w (pos 1),
      +ℤ_parts r w,
      +ℤ_parts (r +ℤ pos 1) (w -ℤ pos 1),
    ))

sum_tightened : (r w : ℤ) → (r -ℤ pos 1) +ℤ (w +ℤ pos 1) ≡ r +ℤ w
sum_tightened r w = eq_of_parts ((r -ℤ pos 1) +ℤ (w +ℤ pos 1)) (r +ℤ w) (
    ground (
      arith,
      -ℤ_parts r (pos 1),
      +ℤ_parts w (pos 1),
      +ℤ_parts r w,
      +ℤ_parts (r -ℤ pos 1) (w +ℤ pos 1),
    ))

apply_adjustment-Moved :
    (low high : Bool) (t : Times) (o : Option (ℤ × ℤ × Reason)) (q : AdaptiveQuorum) (m : Metrics)
    → IsTuned q
    → (o ≡ none)
      ⊎ ((o ≡ some (q.current_r +ℤ pos 1, q.current_w -ℤ pos 1, relax))
          × (low ≡ true)
          × (is_in_lockout t.checked q ≡ false))
      ⊎ ((o ≡ some (q.current_r -ℤ pos 1, q.current_w +ℤ pos 1, tighten))
          × (high ≡ true)
          × (is_in_lockout t.checked q ≡ false))
    → let q' = (apply_adjustment t o (q, m)).0 in
      IsTuned q' × (total q' ≡ total q) × Moved low high t.checked t.adjusted q q'
unfolding apply_adjustment
apply_adjustment-Moved low high t o q m tuned (inl e) = rw e (tuned, refl, stays)
apply_adjustment-Moved low high t o q m tuned (inr (inl (e, is_low, free))) =
    let (r, w) : ℤ × ℤ = (q.current_r +ℤ pos 1, q.current_w -ℤ pos 1) in
    let ((safe, sum), shape) =
      apply_adjustment-IsTuned t r w relax q m tuned (sum_relaxed q.current_r q.current_w) in
    rw e
      (safe, sum, elim shape [ inl same ↦ rw same stays | inr new ↦ rw new (relaxes is_low free) ])
apply_adjustment-Moved low high t o q m tuned (inr (inr (e, is_high, free))) =
    let (r, w) : ℤ × ℤ = (q.current_r -ℤ pos 1, q.current_w +ℤ pos 1) in
    let ((safe, sum), shape) =
      apply_adjustment-IsTuned t r w tighten q m tuned (sum_tightened q.current_r q.current_w) in
    rw e (
      safe,
      sum,
      elim shape [ inl same ↦ rw same stays | inr new ↦ rw new (tightens is_high free) ],
    )

abbrev pub score_after : (F : Float64) → Adjuster F → F.Carrier
score_after F a = get_smoothed_ccs F a.ccs_computer

-- A cycle of the controller keeps the quorum safe and within its bounds and keeps R + W. It leaves
-- the sizes as they are, or moves one unit between them, which it does only outside the lockout and
-- where the score that it computed is below the relax or above the tighten threshold.
pub adjust_quorum-IsTuned :
    (F : Float64) (t : Times) (reg : Registry F) (peers : List String) (a : Adjuster F)
    → IsTuned a.quorum
    → let a' = adjust_quorum F t reg peers a in
      IsTuned a'.quorum
      × (total a'.quorum ≡ total a.quorum)
      × Moved
          (F.less (score_after F a') a.relax_threshold)
          (F.less a.tighten_threshold (score_after F a'))
          t.checked
          t.adjusted
          a.quorum
          a'.quorum
adjust_quorum-IsTuned F t reg peers a tuned =
    let a' = adjust_quorum F t reg peers a in
    let m : Metrics = record a.metrics { hysteresis_active = is_in_lockout t.gauged a.quorum } in
    let score = score_after F a' in
    let low = F.less score a.relax_threshold in
    let high = F.less a.tighten_threshold score in
    rw (decided F t reg peers a) (
      apply_adjustment-Moved low high t (decide F t.checked score a) a.quorum m tuned
        (decide_cases F t.checked score a tuned))

-- Any number of cycles keeps the quorum safe, within its bounds, and R + W as it was at the start.
pub run_cycles-IsTuned :
    (F : Float64) (cycles : List (Times × Registry F × List String)) (a : Adjuster F)
    → IsTuned a.quorum
    → let a' = run_cycles F cycles a in IsTuned a'.quorum × (total a'.quorum ≡ total a.quorum)
unfolding run_cycles
run_cycles-IsTuned F [] a tuned = (tuned, refl)
run_cycles-IsTuned F ((t, reg, peers) ∷ cycles) a tuned =
    let (step, sum, _) = adjust_quorum-IsTuned F t reg peers a tuned in
    let (end, sum') = run_cycles-IsTuned F cycles (adjust_quorum F t reg peers a) step in
    (end, rw sum' sum)
