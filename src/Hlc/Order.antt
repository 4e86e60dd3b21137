-- ===== src/Hlc/Order.antt =====
-- The order of timestamps (internal/hlc/clock.go): lexicographic on the physical and logical parts.
use acp_kv.Prelude.{pos, negsuc, ◌≡◌, ◌↔◌, ◌⊎◌, true, false, arith, ◌<ℤ◌, eq_of_parts}
use acp_kv.Hlc.{Hlc, happens_before, is_concurrent_with, equal, compare}

-- The relation that the Boolean test decides.
abbrev pub Before : Hlc → Hlc → Type 0
Before h g = happens_before h g ≡ true

-- `HappensBefore` decides the lexicographic order of (physical, logical).
pub lexicographic_iff :
    (h g : Hlc)
    → Before h g
      ↔ ((h.physical <ℤ g.physical) ⊎ ((h.physical ≡ g.physical) × (h.logical <ℤ g.logical)))
unfolding happens_before
lexicographic_iff h g =
    (λ e. ground (arith, eq_of_parts h.physical g.physical), λ e. ground (arith))

pub Before-irrefl : (h : Hlc) → happens_before h h ≡ false
unfolding happens_before
Before-irrefl h = ground arith

pub Before-asymm : (h g : Hlc) → Before h g → happens_before g h ≡ false
unfolding happens_before
Before-asymm h g e = ground arith

pub Before-trans : (h g k : Hlc) → Before h g → Before g k → Before h k
unfolding happens_before
Before-trans h g k p q = ground arith

-- Not before is a preorder: incomparability is transitive (a strict weak order).
pub not-Before-trans :
    (h g k : Hlc)
    → happens_before h g ≡ false
    → happens_before g k ≡ false
    → happens_before h k ≡ false
unfolding happens_before
not-Before-trans h g k p q = ground arith

-- Timestamps are concurrent exactly where `Equal` holds, that is, where both their parts agree.
pub is_concurrent_with-eq-equal : (h g : Hlc) → is_concurrent_with h g ≡ equal h g
unfolding is_concurrent_with equal
is_concurrent_with-eq-equal h g = ground arith

-- `Compare` is -1, 1 or 0 exactly where the first is before, after or equal to the second, and
-- swapping its arguments swaps the sign.
pub compare_iff :
    (h g : Hlc)
    → ((compare h g ≡ negsuc 0) ↔ Before h g)
      × ((compare h g ≡ pos 1) ↔ Before g h)
      × ((compare h g ≡ pos 0) ↔ (equal h g ≡ true))
      × ((compare h g ≡ negsuc 0) ↔ (compare g h ≡ pos 1))
unfolding compare equal happens_before
compare_iff h g = (
  (λ e. ground arith, λ e. ground arith),
  (λ e. ground arith, λ e. ground arith),
  (λ e. ground arith, λ e. ground arith),
  (λ e. ground arith, λ e. ground arith),
)

pub equal_comm : (h g : Hlc) → equal h g ≡ equal g h
unfolding equal
equal_comm h g = ground arith

pub equal_trans : (h g k : Hlc) → equal h g ≡ true → equal g k ≡ true → equal h k ≡ true
unfolding equal
equal_trans h g k p q = ground arith

pub equal-Before : (h g k : Hlc) → equal h g ≡ true → Before g k → Before h k
unfolding equal happens_before
equal-Before h g k p q = ground arith

pub Before-equal : (h g k : Hlc) → Before h g → equal g k ≡ true → Before h k
unfolding equal happens_before
Before-equal h g k p q = ground arith

pub Before-not_equal : (h g : Hlc) → Before h g → equal h g ≡ false
unfolding equal happens_before
Before-not_equal h g p = ground arith
