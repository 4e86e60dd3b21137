-- ===== src/Prelude/TextOrder.antt =====
-- The order of Go strings: `>` is irreflexive and transitive.
use Prim.Native.Nat.{compare as compare_ℕ, Ordering}
use acp_kv.Prelude.{String, false, str_gt, true, ◌≡◌, Bool, ap, arith, refl, sym, ◌∙◌}
use Prim.Native.String.compare as cmp
use Prim.Native.Char.{Char, code}
use Prim.Native.String.{compare, then}
use Prim.Native.String.{[] as nil, ◌∷◌ as cons}
use Prim.Native.String.{String}
use text.Mathlib.TextPositions.{compare_refl}

abbrev is_gt : Ordering → Bool
is_gt Ordering.gt = true
is_gt Ordering.eq = false
is_gt Ordering.lt = false

str_gt-is_gt : (a b : String) → str_gt a b ≡ is_gt (compare a b)
str_gt-is_gt a b = ground arith

pub str_gt_irrefl : (s : String) → str_gt s s ≡ false
str_gt_irrefl s = str_gt-is_gt s s ∙ ap is_gt (compare_refl s)

-- The first differing code point decides.
abbrev heads : Ordering → Bool → Bool
heads Ordering.gt rest = true
heads Ordering.eq rest = rest
heads Ordering.lt rest = false

is_gt-then : (o r : Ordering) → is_gt (then o r) ≡ heads o (is_gt r)
is_gt-then Ordering.lt r = refl
is_gt-then Ordering.eq r = refl
is_gt-then Ordering.gt r = refl

str_gt-cons :
    (c d : Char) (s t : String)
    → str_gt (cons c s) (cons d t) ≡ heads (compare_ℕ (code c) (code d)) (str_gt s t)
str_gt-cons c d s t =
    str_gt-is_gt (cons c s) (cons d t)
    ∙ ap is_gt (cmp.cons-cons c d s t)
    ∙ is_gt-then (compare_ℕ (code c) (code d)) (compare s t)
    ∙ ap (heads (compare_ℕ (code c) (code d))) (sym (str_gt-is_gt s t))

nil-not_gt : (t : String) → str_gt nil t ≡ false
nil-not_gt nil = refl
nil-not_gt (cons d t) = str_gt-is_gt nil (cons d t) ∙ ap is_gt (cmp.nil-cons d t)

cons-gt-nil : (c : Char) (s : String) → str_gt (cons c s) nil ≡ true
cons-gt-nil c s = str_gt-is_gt (cons c s) nil ∙ ap is_gt (cmp.cons-nil c s)

pub str_gt_trans : (a b c : String) → str_gt a b ≡ true → str_gt b c ≡ true → str_gt a c ≡ true
str_gt_trans nil b c p q = cc (nil-not_gt b)
str_gt_trans (cons x a) nil c p q = cc (nil-not_gt c)
str_gt_trans (cons x a) (cons y b) nil p q = cons-gt-nil x a
str_gt_trans (cons x a) (cons y b) (cons z c) p q =
    ground
      (arith, str_gt-cons x y a b, str_gt-cons y z b c, str_gt-cons x z a c, str_gt_trans a b c)
