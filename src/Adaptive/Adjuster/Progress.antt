-- ===== src/Adaptive/Adjuster/Progress.antt =====
-- The controller gets where the score tells it to go (internal/adaptive/adjuster.go).
use acp_kv.Prelude.{
  subst, pos_part, neg_part, +ℤ_parts, -ℤ_parts, List, String, [], arith, pos, ◌+ℤ◌, ◌-ℤ◌, ◌≤ℤ◌,
  true, false, ◌≡◌, length, ◌∷◌, some, none, add64_parts, ℕ, suc, eq_of_parts, refl, sym, ◌∙◌, ap,
  ℤ,
}
use acp_kv.Adaptive.Adjuster.{
  Adjuster, Times, adjust_quorum, run_cycles, apply_adjustment, decide, relax,
}
use acp_kv.Adaptive.Adjuster.Laws.{
  IsTuned, adjust_quorum-IsTuned, up_fits, down_fits, decided, score_after,
}
use acp_kv.Adaptive.Quorum.{AdaptiveQuorum, set_quorum, validate, is_in_lockout, get_r, get_w}
use acp_kv.Adaptive.Quorum.Safe.{set_quorum_accepted, set_quorum-validate}
use acp_kv.Metrics.{Metrics}
use acp_kv.Metrics.Reader.{Registry}
use acp_kv.Prelude.Float64.{Float64}

-- A unit can move from W to R, which is to say that the sizes stay in bounds.
abbrev pub HasRoom : ℕ → AdaptiveQuorum → Type 0
HasRoom n q = (q.current_r +ℤ pos n ≤ℤ q.max_r) × (q.min_w +ℤ pos n ≤ℤ q.current_w)

abbrev pub relaxed : ℤ → AdaptiveQuorum → AdaptiveQuorum
relaxed later q = record q {
  current_r = q.current_r +ℤ pos 1;
  current_w = q.current_w -ℤ pos 1;
  last_adjust_time = later;
}

validate-relaxed :
    (q : AdaptiveQuorum)
    → IsTuned q
    → HasRoom 1 q
    → validate (q.current_r +ℤ pos 1) (q.current_w -ℤ pos 1) q ≡ none
unfolding validate
validate-relaxed q tuned room =
    let (r, w) : ℤ × ℤ = (q.current_r, q.current_w) in
    ground (
      arith,
      +ℤ_parts r (pos 1),
      -ℤ_parts w (pos 1),
      add64_parts (r +ℤ pos 1) (w -ℤ pos 1),
      +ℤ_parts q.min_w (pos 1),
      +ℤ_parts r w,
      tuned.safe.intersects,
      tuned.safe.r_fits,
      tuned.safe.w_fits,
      tuned.inside,
      tuned.bounds,
      room,
    )

apply-relaxed :
    (t : Times) (q : AdaptiveQuorum) (m : Metrics)
    → IsTuned q
    → HasRoom 1 q
    → is_in_lockout t.applied q ≡ false
    → (apply_adjustment t (some (q.current_r +ℤ pos 1, q.current_w -ℤ pos 1, relax)) (q, m)).0
      ≡ relaxed t.adjusted q
unfolding apply_adjustment
apply-relaxed t q m tuned room free =
    let ok = validate-relaxed q tuned room in
    let r = q.current_r +ℤ pos 1 in
    let w = q.current_w -ℤ pos 1 in
    let (e, _, _) = set_quorum-validate t.applied t.adjusted r w q m in
    let accepted : (set_quorum t.applied t.adjusted r w q m).0 ≡ none = e ∙ rw (free, ok) refl in
    let (shape, _) = set_quorum_accepted t.applied t.adjusted r w q m accepted in
    rw (ok, shape) refl

decide-relaxed :
    (F : Float64) (now : ℤ) (smoothed : F.Carrier) (a : Adjuster F)
    → IsTuned a.quorum
    → F.less smoothed a.relax_threshold ≡ true
    → is_in_lockout now a.quorum ≡ false
    → decide F now smoothed a
      ≡ some (a.quorum.current_r +ℤ pos 1, a.quorum.current_w -ℤ pos 1, relax)
unfolding decide get_r get_w
decide-relaxed F now smoothed a tuned low free =
    let s = tuned.safe in
    let b = tuned.bounds in
    let i = tuned.inside in
    rw
      (
        free,
        low,
        up_fits a.quorum.current_r (ground arith) s.r_fits,
        down_fits a.quorum.current_w (ground arith) s.w_fits,
      )
      refl

-- A cycle that computes a low score and finds no lockout moves a unit from W to R.
adjust_quorum-relaxed :
    (F : Float64) (t : Times) (reg : Registry F) (peers : List String) (a : Adjuster F)
    → IsTuned a.quorum
    → HasRoom 1 a.quorum
    → F.less (score_after F (adjust_quorum F t reg peers a)) a.relax_threshold ≡ true
    → is_in_lockout t.checked a.quorum ≡ false
    → is_in_lockout t.applied a.quorum ≡ false
    → (adjust_quorum F t reg peers a).quorum ≡ relaxed t.adjusted a.quorum
adjust_quorum-relaxed F t reg peers a tuned room low checked applied =
    decided F t reg peers a
    ∙ rw
        (decide-relaxed F t.checked (score_after F (adjust_quorum F t reg peers a)) a tuned low
          checked)
        (apply-relaxed t a.quorum
          (record a.metrics { hysteresis_active = is_in_lockout t.gauged a.quorum }) tuned room
          applied)

-- Each cycle of the list computes a low score and finds no lockout.
abbrev pub IsLow : (F : Float64) → List (Times × Registry F × List String) → Adjuster F → Type 0
IsLow F [] a = Unit
IsLow F ((t, reg, peers) ∷ cycles) a =
    (F.less (score_after F (adjust_quorum F t reg peers a)) a.relax_threshold ≡ true)
    × (is_in_lockout t.checked a.quorum ≡ false)
    × (is_in_lockout t.applied a.quorum ≡ false)
    × IsLow F cycles (adjust_quorum F t reg peers a)

HasRoom-suc : (n : ℕ) (q : AdaptiveQuorum) → HasRoom (suc n) q → HasRoom 1 q
HasRoom-suc n q room = omega (
  arith,
  room,
  +ℤ_parts q.current_r (pos 1),
  +ℤ_parts q.min_w (pos 1),
  +ℤ_parts q.current_r (pos (suc n)),
  +ℤ_parts q.min_w (pos (suc n)),
)

HasRoom-relaxed :
    (n : ℕ) (later : ℤ) (q : AdaptiveQuorum) → HasRoom (suc n) q → HasRoom n (relaxed later q)
HasRoom-relaxed n later q room = omega (
  arith,
  room,
  +ℤ_parts q.current_r (pos 1),
  -ℤ_parts q.current_w (pos 1),
  +ℤ_parts (q.current_r +ℤ pos 1) (pos n),
  +ℤ_parts q.min_w (pos n),
  +ℤ_parts q.current_r (pos (suc n)),
  +ℤ_parts q.min_w (pos (suc n)),
)

up_up : (n : ℕ) (r : ℤ) → (r +ℤ pos 1) +ℤ pos n ≡ r +ℤ pos (suc n)
up_up n r =
    eq_of_parts ((r +ℤ pos 1) +ℤ pos n) (r +ℤ pos (suc n))
      (omega (arith, +ℤ_parts r (pos 1), +ℤ_parts (r +ℤ pos 1) (pos n), +ℤ_parts r (pos (suc n))))

down_up : (n : ℕ) (v w : ℤ) → v +ℤ pos n ≡ w -ℤ pos 1 → v +ℤ pos (suc n) ≡ w
down_up n v w e = eq_of_parts (v +ℤ pos (suc n)) w (
    omega (
      arith,
      +ℤ_parts v (pos n),
      +ℤ_parts v (pos (suc n)),
      -ℤ_parts w (pos 1),
      ap pos_part e,
      ap neg_part e,
    ))

-- As many cycles as compute a low score, each outside the lockout of the one before, move as many units
-- from W to R, where the bounds leave room for them, and where before the first cycle the sizes intersect and
-- lie in the bounds, which are not negative and below 2^62.
pub run_cycles-relaxed :
    (F : Float64) (cycles : List (Times × Registry F × List String)) (a : Adjuster F)
    → IsTuned a.quorum
    → HasRoom (length cycles) a.quorum
    → IsLow F cycles a
    → let q' = (run_cycles F cycles a).quorum in
      (q'.current_r ≡ a.quorum.current_r +ℤ pos (length cycles))
      × (q'.current_w +ℤ pos (length cycles) ≡ a.quorum.current_w)
unfolding run_cycles
run_cycles-relaxed F [] a tuned room low = (
  eq_of_parts a.quorum.current_r (a.quorum.current_r +ℤ pos 0)
      (omega (arith, +ℤ_parts a.quorum.current_r (pos 0))),
  eq_of_parts (a.quorum.current_w +ℤ pos 0) a.quorum.current_w
      (omega (arith, +ℤ_parts a.quorum.current_w (pos 0))),
)
run_cycles-relaxed F ((t, reg, peers) ∷ cycles) a tuned room (low, checked, applied, lows) =
    let q = a.quorum in
    let a' = adjust_quorum F t reg peers a in
    let n = length cycles in
    let moved =
      adjust_quorum-relaxed F t reg peers a tuned (HasRoom-suc n q room) low checked applied in
    let (tuned', _, _) = adjust_quorum-IsTuned F t reg peers a tuned in
    let room' = subst (HasRoom n) (sym moved) (HasRoom-relaxed n t.adjusted q room) in
    let (r, w) = run_cycles-relaxed F cycles a' tuned' room' lows in
    (
      r ∙ ap (λ (p : AdaptiveQuorum). p.current_r +ℤ pos n) moved ∙ up_up n q.current_r,
      down_up n (run_cycles F cycles a').quorum.current_w q.current_w
          (w ∙ ap (λ (p : AdaptiveQuorum). p.current_w) moved),
    )
