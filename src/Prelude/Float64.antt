-- ===== src/Prelude/Float64.antt =====
-- Go's float64, as a type with the operations that the program uses. What holds of the model holds
-- whatever these are; the IEEE 754 ones are an instance.

use acp_kv.Prelude.{Bool, ℕ}

pub record Float64 : Type 1 where
  pub Carrier : Type 0
  pub add : Carrier → Carrier → Carrier
  pub sub : Carrier → Carrier → Carrier
  pub mul : Carrier → Carrier → Carrier
  pub div : Carrier → Carrier → Carrier
  pub least : Carrier → Carrier → Carrier
  pub less : Carrier → Carrier → Bool
  pub at_most : Carrier → Carrier → Bool
  pub is_equal : Carrier → Carrier → Bool
  pub from_nat : ℕ → Carrier
  -- `decimal n k` is the literal n / 10 ^ k.
  pub decimal : ℕ → ℕ → Carrier
