-- ===== src/Prelude/Int64.antt =====
-- Go's int64 (and `int`, `time.Duration`): integers over the native numbers, with two's complement
-- wrap-around. A value of the program lies in the range `FitsInt64`.
use Prim.Native.Nat.{ℕ, suc, ◌+◌, ◌-◌, ◌%◌, ◌^◌, ◌≤◌, ◌<◌}
use mathlib.Core.Path.{◌≡◌, refl}
use mathlib.Core.Bool.{Bool}
use native.Mathlib.Omega.{arith}
use acp_kv.Prelude.Tests.{ltb, leb, ◌==◌, if◌then◌else◌}

-- `negsuc n` is -(n + 1).
pub data ℤ : Type 0 where
  pos : ℕ → ℤ
  negsuc : ℕ → ℤ

abbrev pub pos_part : ℤ → ℕ
pos_part (pos n) = n
pos_part (negsuc n) = 0

abbrev pub neg_part : ℤ → ℕ
neg_part (pos n) = 0
neg_part (negsuc n) = suc n

-- a - b, as an integer.
abbrev pub sub_ℕ : ℕ → ℕ → ℤ
sub_ℕ a b = if leb b a then pos (a - b) else negsuc (b - a - 1)

infixl 65 ◌+ℤ◌ ◌-ℤ◌
infix 50 ◌≤ℤ◌ ◌<ℤ◌
unfoldable pub ◌+ℤ◌ : ℤ → ℤ → ℤ
a +ℤ b = sub_ℕ (pos_part a + pos_part b) (neg_part a + neg_part b)

unfoldable pub ◌-ℤ◌ : ℤ → ℤ → ℤ
a -ℤ b = sub_ℕ (pos_part a + neg_part b) (neg_part a + pos_part b)

abbrev pub ◌≤ℤ◌ : ℤ → ℤ → Type 0
a ≤ℤ b = pos_part a + neg_part b ≤ pos_part b + neg_part a

abbrev pub ◌<ℤ◌ : ℤ → ℤ → Type 0
a <ℤ b = pos_part a + neg_part b < pos_part b + neg_part a

abbrev pub ltb_ℤ : ℤ → ℤ → Bool
ltb_ℤ a b = ltb (pos_part a + neg_part b) (pos_part b + neg_part a)

abbrev pub leb_ℤ : ℤ → ℤ → Bool
leb_ℤ a b = leb (pos_part a + neg_part b) (pos_part b + neg_part a)

abbrev pub eqb_ℤ : ℤ → ℤ → Bool
eqb_ℤ a b = (pos_part a + neg_part b) == (pos_part b + neg_part a)

pub +ℤ_parts :
    (a b : ℤ)
    → pos_part (a +ℤ b) + neg_part a + neg_part b ≡ neg_part (a +ℤ b) + pos_part a + pos_part b
unfolding ◌+ℤ◌
+ℤ_parts a b = ground arith

pub -ℤ_parts :
    (a b : ℤ)
    → pos_part (a -ℤ b) + neg_part a + pos_part b ≡ neg_part (a -ℤ b) + pos_part a + neg_part b
unfolding ◌-ℤ◌
-ℤ_parts a b = ground arith

pub eq_of_parts : (a b : ℤ) → pos_part a + neg_part b ≡ pos_part b + neg_part a → a ≡ b
eq_of_parts a b h = ground arith

-- The integers that an int64 holds.
abbrev pub FitsInt64 : ℤ → Type 0
FitsInt64 a = (pos_part a < 2 ^ 63) × (neg_part a ≤ 2 ^ 63)

residue64 : ℤ → ℕ
residue64 a = (pos_part a % 2 ^ 64 + (2 ^ 64 - neg_part a % 2 ^ 64)) % 2 ^ 64

-- The int64 with the low 64 bits of `a`.
unfoldable pub wrap64 : ℤ → ℤ
unfolding residue64
wrap64 a = let r = residue64 a in if ltb r (2 ^ 63) then pos r else negsuc (2 ^ 64 - 1 - r)

-- int64 addition and subtraction.
unfoldable pub add64 : ℤ → ℤ → ℤ
unfolding wrap64 ◌+ℤ◌
add64 a b = wrap64 (a +ℤ b)

unfoldable pub sub64 : ℤ → ℤ → ℤ
unfolding wrap64 ◌-ℤ◌
sub64 a b = wrap64 (a -ℤ b)

pub wrap64_lem : (a : ℤ) → FitsInt64 a → wrap64 a ≡ a
unfolding wrap64
wrap64_lem (pos n) h = ground arith
wrap64_lem (negsuc n) h = ground arith

pub wrap64-FitsInt64 : (a : ℤ) → FitsInt64 (wrap64 a)
unfolding wrap64
wrap64-FitsInt64 a = ground arith

add64-eq-wrap64 : (a b : ℤ) → add64 a b ≡ wrap64 (a +ℤ b)
unfolding add64
add64-eq-wrap64 a b = refl

sub64-eq-wrap64 : (a b : ℤ) → sub64 a b ≡ wrap64 (a -ℤ b)
unfolding sub64
sub64-eq-wrap64 a b = refl

+ℤ-FitsInt64 :
    (a b : ℤ)
    → pos_part a + pos_part b < 2 ^ 63 + neg_part a + neg_part b
    → neg_part a + neg_part b ≤ 2 ^ 63 + pos_part a + pos_part b
    → FitsInt64 (a +ℤ b)
unfolding ◌+ℤ◌
+ℤ-FitsInt64 a b h k = ground arith

-ℤ-FitsInt64 :
    (a b : ℤ)
    → pos_part a + neg_part b < 2 ^ 63 + neg_part a + pos_part b
    → neg_part a + pos_part b ≤ 2 ^ 63 + pos_part a + neg_part b
    → FitsInt64 (a -ℤ b)
unfolding ◌-ℤ◌
-ℤ-FitsInt64 a b h k = ground arith

-- Where the sum is in range, it does not wrap.
pub add64_parts :
    (a b : ℤ)
    → pos_part a + pos_part b < 2 ^ 63 + neg_part a + neg_part b
    → neg_part a + neg_part b ≤ 2 ^ 63 + pos_part a + pos_part b
    → pos_part (add64 a b) + neg_part a + neg_part b
      ≡ neg_part (add64 a b) + pos_part a + pos_part b
add64_parts a b h k =
    rw (add64-eq-wrap64, wrap64_lem (a +ℤ b) (+ℤ-FitsInt64 a b h k)) (+ℤ_parts a b)

pub sub64_parts :
    (a b : ℤ)
    → pos_part a + neg_part b < 2 ^ 63 + neg_part a + pos_part b
    → neg_part a + pos_part b ≤ 2 ^ 63 + pos_part a + neg_part b
    → pos_part (sub64 a b) + neg_part a + pos_part b
      ≡ neg_part (sub64 a b) + pos_part a + neg_part b
sub64_parts a b h k =
    rw (sub64-eq-wrap64, wrap64_lem (a -ℤ b) (-ℤ-FitsInt64 a b h k)) (-ℤ_parts a b)

pub add64-FitsInt64 : (a b : ℤ) → FitsInt64 (add64 a b)
add64-FitsInt64 a b = rw add64-eq-wrap64 (wrap64-FitsInt64 (a +ℤ b))

pub add64_eq : (a b : ℤ) → FitsInt64 (a +ℤ b) → add64 a b ≡ a +ℤ b
add64_eq a b h = rw (add64-eq-wrap64, wrap64_lem (a +ℤ b) h) refl

pub sub64_eq : (a b : ℤ) → FitsInt64 (a -ℤ b) → sub64 a b ≡ a -ℤ b
sub64_eq a b h = rw (sub64-eq-wrap64, wrap64_lem (a -ℤ b) h) refl
