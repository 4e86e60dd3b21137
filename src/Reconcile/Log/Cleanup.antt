-- ===== src/Reconcile/Log/Cleanup.antt =====
-- What `Cleanup` keeps (internal/reconcile/log.go).
use mathlib.Core.List.{Perm, append-nil, append_assoc}
use native.Mathlib.Decide.{dec_lt}
use native.Mathlib.Nat.{mod-eq_of_lt, mod-lt, mod_self}
use native.Mathlib.Numerals.{add-one}
use acp_kv.Prelude.{
  subst, length-replicate, List, [], length, length-set, take, ◌++◌, ◌+◌, ◌<◌, ◌∷◌, ◌≡◌, ap, arith,
  get_elem?, if◌then◌else◌, leb_ℤ, length-append, refl, some, suc, sym, ℕ, ℤ, ◌∙◌, Bool, Bool-cases,
  inl, inr, select, zero, ◌≤◌, ◌%◌,
}
use acp_kv.Prelude.Window.{take_all, length-take, take-set, IsRing, oldest_first}
use acp_kv.Reconcile.Log.{
  zero_entry, keep, keep_from, cleared, with_kept, cleanup, Kept, WriteEntry, RecentWriteLog,
  cutoff,
}
use acp_kv.Reconcile.Log.Inv.{stamps-replicate, IsValid, stamps, stamps-set, writes}
use acp_kv.Reconcile.Log.Writes.{order-perm, get_elem?-stamps, slots_from, fresh}

-- What has been copied so far.
abbrev kept : Kept → List WriteEntry
kept k = take k.valid_count k.new_entries

-- `k'` has what `k` has and `es` after it, in buffers of the same size that agree.
record Extends (k : Kept) (es : List WriteEntry) (k' : Kept) : Type 0 where
  sized : length k'.new_entries ≡ length k.new_entries
  stamped : k'.new_timestamps ≡ stamps k'.new_entries
  counted : k'.valid_count ≡ k.valid_count + length es
  copied : kept k' ≡ kept k ++ es

keep-Extends :
    (e : WriteEntry) (k : Kept)
    → k.new_timestamps ≡ stamps k.new_entries
    → k.valid_count < length k.new_entries
    → Extends k (e ∷ []) (keep e e.timestamp k)
unfolding keep
keep-Extends e k h room = record {
  sized = length-set k.new_entries k.valid_count e;
  stamped = rw h (sym (stamps-set k.new_entries k.valid_count e));
  counted = refl;
  copied = rw add-one (take-set k.new_entries k.valid_count e room);
}

Extends-trans :
    (k k' k'' : Kept) (es es' : List WriteEntry)
    → Extends k es k'
    → Extends k' es' k''
    → Extends k (es ++ es') k''
Extends-trans k k' k'' es es' a b = record {
  sized = b.sized ∙ a.sized;
  stamped = b.stamped;
  counted = omega (arith, a.counted, b.counted, length-append es es');
  copied = b.copied ∙ ap (λ xs. xs ++ es') a.copied ∙ append_assoc (kept k) es es';
}

Extends-nil : (k : Kept) → k.new_timestamps ≡ stamps k.new_entries → Extends k [] k
Extends-nil k h = record {
  sized = refl;
  stamped = h;
  counted = omega arith;
  copied = sym (append-nil (kept k));
}

keep_from-suc :
    (n i : ℕ) (oldest stamp : ℤ) (e : WriteEntry) (l : RecentWriteLog) (k : Kept)
    → get_elem? l.timestamps i ≡ some stamp
    → get_elem? l.entries i ≡ some e
    → keep_from (suc n) i oldest l k
      ≡ keep_from n (suc i) oldest l (if leb_ℤ oldest stamp then keep e stamp k else k)
unfolding keep_from
keep_from-suc n i oldest stamp e l k p q = rw (p, q, add-one) refl

-- A buffer that is filled from slot 0 holds its first slots, in order.
packed :
    (xs : List WriteEntry) (c : ℕ)
    → 0 < length xs
    → c ≤ length xs
    → IsRing xs (c % length xs) c × (oldest_first xs (c % length xs) c ≡ take c xs)
packed xs c room h = elim (dec_lt c (length xs)) [
  | yes less ↦
      let e : c % length xs ≡ c = mod-eq_of_lt less in ((mod-lt c room, h, λ p. e), ground arith)
  | no full ↦
      let same : c ≡ length xs = omega arith in
      let e : c % length xs ≡ 0 = rw same (mod_self (length xs)) in
      (
        (mod-lt c room, h, λ p. absurd (full p)),
        rw e (ground arith) ∙ append-nil xs ∙ sym (take_all xs c (omega arith)),
      )
]

length-select : (p : WriteEntry → Bool) (xs : List WriteEntry) → length (select p xs) ≤ length xs
length-select p [] = omega arith
length-select p (x ∷ xs) = ground (arith, length-select p xs)

abbrev unexpired : ℤ → WriteEntry → Bool
unexpired oldest e = leb_ℤ oldest e.timestamp

module _ (l : RecentWriteLog) (v : IsValid l) where
  -- The loop does not read out of range, and copies what is not expired.
  keep_from-Extends :
      (n i : ℕ) (oldest : ℤ) (k : Kept)
      → i + n ≤ length l.entries
      → k.new_timestamps ≡ stamps k.new_entries
      → length k.new_entries ≡ length l.entries
      → k.valid_count ≤ i
      → (k' : Kept) × (keep_from n i oldest l k ≡ some k')
        × Extends k (select (unexpired oldest) (slots_from n i l)) k'
  keep_from-Extends zero i oldest k h a b c = (k, unfold keep_from in refl, Extends-nil k a)
  keep_from-Extends (suc n) i oldest k h a b c =
      let (e, p, q, r) = get_elem?-stamps l.entries i (omega arith) in
      let first =
        keep_from-suc n i oldest e.timestamp e l k (ap (λ ts. get_elem? ts i) v.stamped ∙ q) p in
      elim (Bool-cases (leb_ℤ oldest e.timestamp)) [
        | inl valid ↦
            let one = keep-Extends e k a (omega arith) in
            let (k', done, more) =
              keep_from-Extends n (suc i) oldest (keep e e.timestamp k) (omega arith) one.stamped
                (one.sized ∙ b) (omega (arith, one.counted)) in
            (
              k',
              first ∙ rw valid done,
              rw (r, valid)
                  (Extends-trans k (keep e e.timestamp k) k' (e ∷ [])
                    (select (unexpired oldest) (slots_from n (suc i) l)) one more),
            )
        | inr expired ↦
            let (k', done, more) =
              keep_from-Extends n (suc i) oldest k (omega arith) a b (omega arith) in
            (k', first ∙ rw expired done, rw (r, expired) more)
      ]

  -- What the loop copies in all.
  copied_all :
      (oldest : ℤ)
      → (k : Kept) × (keep_from l.count 0 oldest l (cleared l) ≡ some k)
        × (length k.new_entries ≡ length l.entries)
        × (k.new_timestamps ≡ stamps k.new_entries)
        × (k.valid_count ≤ length l.entries)
        × (take k.valid_count k.new_entries ≡ select (unexpired oldest) (take l.count l.entries))
  unfolding cleared
  copied_all oldest =
      let size : length (cleared l).new_entries ≡ length l.entries =
        length-replicate l.max_size zero_entry ∙ sym v.sized in
      let (k, done, ext) =
        keep_from-Extends l.count 0 oldest (cleared l) (omega (arith, v.ring))
          (sym (stamps-replicate l.max_size)) size (omega arith) in
      let slots = take l.count l.entries in
      (
        k,
        done,
        ext.sized ∙ size,
        ext.stamped,
        omega (
          arith,
          ext.counted,
          length-select (unexpired oldest) slots,
          length-take l.count l.entries,
        ),
        ext.copied,
      )

  -- `Cleanup` does not read out of range and keeps the log consistent. The log then holds the
  -- unexpired writes that it held before, each as often.
  pub cleanup-writes :
      (now : ℤ)
      → (l' : RecentWriteLog) × (cleanup now l ≡ some l')
        × IsValid l'
        × Perm (writes l') (select (fresh now l) (writes l))
  unfolding cleanup with_kept
  cleanup-writes now =
      let (k, done, size, agree, few, copied) = copied_all (cutoff now l) in
      let (ring, order) =
        packed k.new_entries k.valid_count (omega (arith, size, v.ring))
          (omega (arith, size, few)) in
      let same : length k.new_entries ≡ l.max_size = size ∙ v.sized in
      (
        with_kept l k,
        rw done refl,
        record { sized = same; stamped = agree; ring = rw (← same) ring },
        subst
            (λ n.
              Perm (oldest_first k.new_entries (k.valid_count % n) k.valid_count)
                (select (fresh now l) (writes l)))
            same (rw (order, copied) (order-perm l v (fresh now l))),
      )
