-- ===== src/Reconcile/Engine/Queue.antt =====
-- The queue of healed peers (NotifyHealingEvent of internal/reconcile/engine.go).

use mathlib.Core.List.{append-nil, append_assoc}
use acp_kv.Prelude.{
  Bool-cases, List, String, [], ap, arith, inl, inr, length, length-append, ltb, refl, suc, sym,
  take, zero, ℕ, ◌++◌, ◌∙◌, ◌∷◌, ◌≡◌, ◌≤◌, false, true,
}
use acp_kv.Prelude.Window.{take_all}
use acp_kv.Reconcile.Engine.{Engine, notify_healing_event, queue_capacity}

take-append : (xs ys : List String) (n : ℕ) → length xs ≡ n → take n (xs ++ ys) ≡ xs
take-append [] ys zero h = refl
take-append [] ys (suc n) h = absurd (omega arith)
take-append (x ∷ xs) ys zero h = absurd (omega arith)
take-append (x ∷ xs) ys (suc n) h = ap (λ l. x ∷ l) (take-append xs ys n (omega arith))

-- `NotifyHealingEvent` for one peer after another.
abbrev pub notify_all : List String → Engine → Engine
notify_all [] e = e
notify_all (peer ∷ peers) e = notify_all peers (notify_healing_event peer e)

-- What becomes of one report.
notify_room :
    (peer : String) (e : Engine)
    → ltb (length e.healing_events) queue_capacity ≡ true
    → notify_healing_event peer e ≡ record e { healing_events = e.healing_events ++ peer ∷ [] }
unfolding notify_healing_event
notify_room peer e room = rw room refl

notify_full :
    (peer : String) (e : Engine)
    → ltb (length e.healing_events) queue_capacity ≡ false
    → notify_healing_event peer e ≡ e
unfolding notify_healing_event
notify_full peer e full = rw full refl

-- Without an event being served, the queue of an engine holds the first `queue_capacity` of the peers
-- reported, in the order of the reports: later ones are dropped.
pub notify_all-take :
    (peers : List String) (e : Engine)
    → length e.healing_events ≤ queue_capacity
    → (notify_all peers e).healing_events ≡ take queue_capacity (e.healing_events ++ peers)
notify_all-take [] e h = rw append-nil (sym (take_all e.healing_events queue_capacity h))
notify_all-take (peer ∷ peers) e h =
    elim (Bool-cases (ltb (length e.healing_events) queue_capacity)) [
      | inl room ↦
          let e' : Engine = record e { healing_events = e.healing_events ++ peer ∷ [] } in
          ap (λ n. (notify_all peers n).healing_events) (notify_room peer e room)
          ∙ notify_all-take peers e' (ground (arith, length-append e.healing_events (peer ∷ [])))
          ∙ simp append_assoc
      | inr full ↦
          ap (λ n. (notify_all peers n).healing_events) (notify_full peer e full)
          ∙ notify_all-take peers e h
          ∙ take-append e.healing_events peers queue_capacity (ground arith)
          ∙ sym (take-append e.healing_events (peer ∷ peers) queue_capacity (ground arith))
    ]
