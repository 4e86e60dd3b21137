-- ===== src/Reconcile/Log/Writes.antt =====
-- What `GetAll` returns (internal/reconcile/log.go).
use mathlib.Core.List.Perm
use mathlib.Core.List.{perm_append_comm, Perm}
use native.Mathlib.Numerals.{add-one}
use acp_kv.Prelude.{
  Bool, List, [], arith, drop, get_elem?, leb_ℤ, length, refl, some, suc, zero, ℕ, ℤ, ◌+◌, ◌<◌, ◌∷◌,
  ◌≡◌, select, take, ◌≤◌, Bool-cases, ap, inl, inr, ◌++◌, if◌then◌else◌, ltb, sym, ◌∙◌,
}
use acp_kv.Prelude.Window.{take_all}
use acp_kv.Reconcile.Log.{RecentWriteLog, WriteEntry, cutoff, get_from, get_all}
use acp_kv.Reconcile.Log.Inv.{stamps, IsValid, writes}

-- The writes that `GetAll` and `Cleanup` take for unexpired at `now`.
abbrev pub fresh : ℤ → RecentWriteLog → WriteEntry → Bool
fresh now l e = leb_ℤ (cutoff now l) e.timestamp

pub get_elem?-stamps :
    (es : List WriteEntry) (i : ℕ)
    → i < length es
    → (e : WriteEntry) × (get_elem? es i ≡ some e)
      × (get_elem? (stamps es) i ≡ some e.timestamp)
      × (drop i es ≡ e ∷ drop (suc i) es)
get_elem?-stamps [] i h = absurd (omega arith)
get_elem?-stamps (x ∷ es) zero h = (x, refl, refl, refl)
get_elem?-stamps (x ∷ es) (suc i) h = get_elem?-stamps es i (omega arith)

select-append :
    (p : WriteEntry → Bool) (xs ys : List WriteEntry)
    → select p (xs ++ ys) ≡ select p xs ++ select p ys
select-append p [] ys = refl
select-append p (x ∷ xs) ys = elim (Bool-cases (p x)) [
  | inl e ↦ rw (e, select-append p xs ys) refl
  | inr e ↦ rw (e, select-append p xs ys) refl
]

take-append-drop : (n : ℕ) (xs : List WriteEntry) → take n xs ++ drop n xs ≡ xs
take-append-drop zero xs = refl
take-append-drop (suc n) [] = refl
take-append-drop (suc n) (x ∷ xs) = ap (λ l. x ∷ l) (take-append-drop n xs)

-- The slots from `i` on, `n` of them.
abbrev pub slots_from : ℕ → ℕ → RecentWriteLog → List WriteEntry
slots_from n i l = take n (drop i l.entries)

get_from-suc :
    (n i : ℕ) (oldest stamp : ℤ) (e : WriteEntry) (rest : List WriteEntry) (l : RecentWriteLog)
    → get_elem? l.timestamps i ≡ some stamp
    → get_elem? l.entries i ≡ some e
    → get_from n (suc i) oldest l ≡ some rest
    → get_from (suc n) i oldest l ≡ some (if leb_ℤ oldest stamp then e ∷ rest else rest)
unfolding get_from
get_from-suc n i oldest stamp e rest l p q r = rw (p, q, add-one, r)

module _ (l : RecentWriteLog) (v : IsValid l) where
  pub get_from_lem :
      (n i : ℕ) (oldest : ℤ)
      → i + n ≤ length l.entries
      → get_from n i oldest l ≡ some (select (λ e. leb_ℤ oldest e.timestamp) (slots_from n i l))
  get_from_lem zero i oldest h = unfold get_from in refl
  get_from_lem (suc n) i oldest h =
      let (e, p, q, r) = get_elem?-stamps l.entries i (omega arith) in
      get_from-suc n i oldest e.timestamp e
        (select (λ e. leb_ℤ oldest e.timestamp) (slots_from n (suc i) l)) l
        (ap (λ ts. get_elem? ts i) v.stamped ∙ q) p (get_from_lem n (suc i) oldest (omega arith))
      ∙ rw r

  -- The slots in use hold the writes, in another order once the buffer has gone round.
  pub order-perm :
      (p : WriteEntry → Bool) → Perm (select p (take l.count l.entries)) (select p (writes l))
  order-perm p = elim (Bool-cases (ltb l.count (length l.entries))) [
    | inl h ↦ rw h (Perm.refl _)
    | inr h ↦
        let all : take l.count l.entries ≡ take l.index l.entries ++ drop l.index l.entries =
          take_all l.entries l.count (ground arith) ∙ sym (take-append-drop l.index l.entries) in
        rw h (
          rw
            (
              all,
              select-append p (take l.index l.entries) (drop l.index l.entries),
              select-append p (drop l.index l.entries) (take l.index l.entries),
            )
            (perm_append_comm (select p (take l.index l.entries))
              (select p (drop l.index l.entries))))
  ]

  -- `GetAll` does not read out of range. It returns the unexpired among the writes that the log holds,
  -- each as often as it is there.
  pub get_all-writes :
      (now : ℤ)
      → (es : List WriteEntry) × (get_all now l ≡ some es)
        × Perm es (select (fresh now l) (writes l))
  unfolding get_all
  get_all-writes now = (
    select (fresh now l) (take l.count l.entries),
    get_from_lem l.count 0 (cutoff now l) (omega (arith, v.ring)),
    order-perm (fresh now l),
  )
