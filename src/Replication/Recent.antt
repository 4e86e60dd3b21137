-- ===== src/Replication/Recent.antt =====
-- The value that a quorum read returns (`GetMostRecent` of internal/replication/coordinator.go).
use acp_kv.Prelude.{
  All, Bool-cases, List, [], false, inl, inr, none, refl, some, ◌∷◌, ◌≡◌, ◌⊎◌, arith, if◌then◌else◌,
  subst, sym, true, ◌∙◌,
}
use acp_kv.Hlc.{happens_after, happens_before}
use acp_kv.Hlc.Order.{Before-irrefl, Before-trans, not-Before-trans}
use acp_kv.Replication.{most_recent_from, get_most_recent, ReplicaValue}

-- The value stands in the list.
abbrev pub IsOneOf : ReplicaValue → List ReplicaValue → Type 0
IsOneOf v [] = ⊥
IsOneOf v (x ∷ xs) = (v ≡ x) ⊎ IsOneOf v xs

-- No value of the list has a later timestamp.
abbrev pub IsLatest : ReplicaValue → List ReplicaValue → Type 0
IsLatest v xs = All (λ x. happens_after x.hlc v.hlc ≡ false) xs

most_recent_from-cons :
    (best v : ReplicaValue) (vs : List ReplicaValue)
    → most_recent_from best (v ∷ vs)
      ≡ most_recent_from (if happens_before best.hlc v.hlc then v else best) vs
unfolding most_recent_from happens_after
most_recent_from-cons best v vs = refl

most_recent_from-nil : (best : ReplicaValue) → most_recent_from best [] ≡ best
unfolding most_recent_from
most_recent_from-nil best = refl

-- `r` is `best` or one of `vs`, and none of these is later.
abbrev IsBest : ReplicaValue → List ReplicaValue → ReplicaValue → Type 0
IsBest best vs r =
    ((r ≡ best) ⊎ IsOneOf r vs) × (happens_after best.hlc r.hlc ≡ false) × IsLatest r vs

IsBest-later :
    (best v r : ReplicaValue) (vs : List ReplicaValue)
    → happens_before best.hlc v.hlc ≡ true
    → IsBest v vs r
    → IsBest best (v ∷ vs) r
unfolding happens_after
IsBest-later best v r vs e (one, first, rest) =
    (inr one, ground (arith, Before-trans r.hlc best.hlc v.hlc), (first, rest))

IsBest-same :
    (best v r : ReplicaValue) (vs : List ReplicaValue)
    → happens_before best.hlc v.hlc ≡ false
    → IsBest best vs r
    → IsBest best (v ∷ vs) r
unfolding happens_after
IsBest-same best v r vs e (one, first, rest) = (
  elim one [ inl p ↦ inl p | inr p ↦ inr (inr p) ],
  first,
  (not-Before-trans r.hlc best.hlc v.hlc first e, rest),
)

most_recent_from-IsBest :
    (best : ReplicaValue) (vs : List ReplicaValue) → IsBest best vs (most_recent_from best vs)
most_recent_from-IsBest best [] =
    rw most_recent_from-nil (inl refl, unfold happens_after in Before-irrefl best.hlc, tt)
most_recent_from-IsBest best (v ∷ vs) = elim (Bool-cases (happens_before best.hlc v.hlc)) [
  | inl e ↦
      subst (IsBest best (v ∷ vs)) (sym (most_recent_from-cons best v vs ∙ rw e))
        (IsBest-later best v (most_recent_from v vs) vs e (most_recent_from-IsBest v vs))
  | inr e ↦
      subst (IsBest best (v ∷ vs)) (sym (most_recent_from-cons best v vs ∙ rw e))
        (IsBest-same best v (most_recent_from best vs) vs e (most_recent_from-IsBest best vs))
]

-- `GetMostRecent` finds nothing in an empty list only. What it finds is one of the values, and no
-- value of the list has a later timestamp.
pub get_most_recent_lem :
    (vs : List ReplicaValue)
    → ((vs ≡ []) × (get_most_recent vs ≡ none))
      ⊎ ((v : ReplicaValue) × (get_most_recent vs ≡ some v) × IsOneOf v vs × IsLatest v vs)
unfolding get_most_recent
get_most_recent_lem [] = inl (refl, refl)
get_most_recent_lem (v ∷ vs) =
    let (one, first, rest) = most_recent_from-IsBest v vs in
    inr (most_recent_from v vs, refl, one, (first, rest))
