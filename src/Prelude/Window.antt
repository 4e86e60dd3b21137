-- ===== src/Prelude/Window.antt =====
-- A circular buffer as a list of slots: where a write goes, and the elements oldest first. Both the
-- metrics window and the log of recent writes are kept so.

use mathlib.Core.List.{append-nil, append_assoc}
use mathlib.Core.Path.{ap₂}
use native.Mathlib.Decide.{dec_lt}
use native.Mathlib.Nat.{mod-eq_of_lt}
use acp_kv.Prelude.{
  List, [], ap, arith, drop, if◌then◌else◌, length, ltb, min, refl, set, suc, take, zero, ℕ, ◌%◌,
  ◌++◌, ◌+◌, ◌-◌, ◌<◌, ◌∷◌, ◌≡◌, ◌≤◌, length-set, sym, ◌∙◌, length-append,
}

module _ {ℓ} {A : Type ℓ} where
  -- The elements of a buffer with the next write at `index` and `count` slots in use, oldest first.
  abbrev pub oldest_first : List A → ℕ → ℕ → List A
  oldest_first slots index count =
      if ltb count (length slots) then take count slots else drop index slots ++ take index slots

  -- The elements that remain after adding one to at most `size`.
  abbrev pub push_bounded : ℕ → List A → A → List A
  push_bounded size xs x = drop (length xs + 1 - size) (xs ++ x ∷ [])

module _ {ℓ} {A : Type ℓ} where
  pub take-set :
      (xs : List A) (i : ℕ) (v : A)
      → i < length xs
      → take (suc i) (set xs i v) ≡ take i xs ++ v ∷ []
  take-set [] i v h = absurd (omega arith)
  take-set (x ∷ xs) zero v h = refl
  take-set (x ∷ xs) (suc i) v h = ap (λ l. x ∷ l) (take-set xs i v (omega arith))

  pub drop-set : (xs : List A) (i : ℕ) (v : A) → drop (suc i) (set xs i v) ≡ drop (suc i) xs
  drop-set [] i v = refl
  drop-set (x ∷ xs) zero v = refl
  drop-set (x ∷ xs) (suc i) v = drop-set xs i v

  -- Dropping one more, seen from the list that is left.
  pub drop-one-append :
      (xs ys : List A) (i : ℕ) → i < length xs → drop 1 (drop i xs ++ ys) ≡ drop (suc i) xs ++ ys
  drop-one-append [] ys i h = absurd (omega arith)
  drop-one-append (x ∷ xs) ys zero h = refl
  drop-one-append (x ∷ xs) ys (suc i) h = drop-one-append xs ys i (omega arith)

  pub take_all : (xs : List A) (n : ℕ) → length xs ≤ n → take n xs ≡ xs
  take_all [] zero h = refl
  take_all [] (suc n) h = refl
  take_all (x ∷ xs) zero h = absurd (omega arith)
  take_all (x ∷ xs) (suc n) h = ap (λ l. x ∷ l) (take_all xs n (omega arith))

  pub drop_all : (xs : List A) (n : ℕ) → length xs ≤ n → drop n xs ≡ []
  drop_all [] zero h = refl
  drop_all [] (suc n) h = refl
  drop_all (x ∷ xs) zero h = absurd (omega arith)
  drop_all (x ∷ xs) (suc n) h = drop_all xs n (omega arith)

  pub length-take : (n : ℕ) (xs : List A) → length (take n xs) ≡ min n (length xs)
  length-take zero xs = omega arith
  length-take (suc n) [] = omega arith
  length-take (suc n) (x ∷ xs) = omega (arith, length-take n xs)

  pub length-drop : (n : ℕ) (xs : List A) → length (drop n xs) ≡ length xs - n
  length-drop zero xs = omega arith
  length-drop (suc n) [] = omega arith
  length-drop (suc n) (x ∷ xs) = omega (arith, length-drop n xs)

  -- The states that the buffer goes through: filling from slot 0, then going round.
  abbrev pub IsRing : List A → ℕ → ℕ → Type 0
  IsRing slots index count =
      (index < length slots) × (count ≤ length slots) × ((count < length slots → index ≡ count))

  -- The index after a write, and the number of slots in use.
  abbrev pub next_index : List A → ℕ → ℕ
  next_index slots index = (index + 1) % length slots

  abbrev pub next_count : List A → ℕ → ℕ
  next_count slots count = if ltb count (length slots) then count + 1 else count

pub suc_mod_lt : (i n : ℕ) → i + 1 < n → (i + 1) % n ≡ i + 1
suc_mod_lt i n h = mod-eq_of_lt h

pub suc_mod_wrap : (i n : ℕ) → i + 1 ≡ n → (i + 1) % n ≡ 0
suc_mod_wrap i n h = rw h (grind arith)

module _ {ℓ} {A : Type ℓ} where
  -- Reading the buffer from the slot after the one just written.
  from_next :
      (slots : List A) (index : ℕ) (v : A)
      → index < length slots
      → drop (next_index slots index) (set slots index v)
          ++ take (next_index slots index) (set slots index v)
        ≡ drop (suc index) slots ++ (take index slots ++ v ∷ [])
  from_next slots index v h = elim (dec_lt (suc index) (length slots)) [
    | yes p ↦
        let e : next_index slots index ≡ suc index =
          omega (arith, suc_mod_lt index (length slots) (omega arith)) in
        rw e (ap₂ ◌++◌ (drop-set slots index v) (take-set slots index v h))
    | no p ↦
        let e : next_index slots index ≡ 0 =
          omega (arith, suc_mod_wrap index (length slots) (omega arith)) in
        rw (e, drop_all slots (suc index) (omega arith), append-nil)
          (sym (take_all (set slots index v) (suc index) (omega (arith, length-set slots index v)))
            ∙ take-set slots index v h)
  ]

  module _ (slots : List A) (index count : ℕ) (v : A) (ring : IsRing slots index count) where
    pub write-IsRing : IsRing (set slots index v) (next_index slots index) (next_count slots count)
    write-IsRing = ground (
      arith,
      length-set slots index v,
      suc_mod_lt index (length slots),
      suc_mod_wrap index (length slots),
    )

    filling :
        count < length slots
        → suc count < length slots
        → oldest_first (set slots index v) (next_index slots index) (next_count slots count)
          ≡ push_bounded (length slots) (oldest_first slots index count) v
    filling h k =
        ground (arith, length-set slots index v, take-set slots index v, length-take count slots)

    wrapped :
        (suc count < length slots → ⊥)
        → oldest_first (set slots index v) (next_index slots index) (next_count slots count)
          ≡ drop (suc index) slots ++ (take index slots ++ v ∷ [])
    wrapped h = ground (arith, length-set slots index v, from_next slots index v)

    last_free :
        suc count ≡ length slots
        → push_bounded (length slots) (oldest_first slots index count) v
          ≡ drop (suc index) slots ++ (take index slots ++ v ∷ [])
    last_free h = ground (arith, length-take count slots, drop_all slots (suc index))

    full :
        count ≡ length slots
        → push_bounded (length slots) (oldest_first slots index count) v
          ≡ drop (suc index) slots ++ (take index slots ++ v ∷ [])
    full h = ground (
      arith,
      length-take index slots,
      length-drop index slots,
      length-append (drop index slots) (take index slots),
      append_assoc (drop index slots) (take index slots) (v ∷ []),
      drop-one-append slots (take index slots ++ v ∷ []) index,
    )

    -- A write appends to the elements, and drops the oldest where all slots are in use.
    pub oldest_first-write :
        oldest_first (set slots index v) (next_index slots index) (next_count slots count)
        ≡ push_bounded (length slots) (oldest_first slots index count) v
    oldest_first-write = elim (dec_lt (suc count) (length slots)) [
      | yes p ↦ filling (omega arith) p
      | no p ↦ elim (dec_lt count (length slots)) [
        | yes q ↦ wrapped p ∙ sym (last_free (omega arith))
        | no q ↦ wrapped p ∙ sym (full (omega arith))
      ]
    ]
