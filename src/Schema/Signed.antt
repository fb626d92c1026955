-- ===== src/Schema/Signed.antt =====
-- Differences of amounts: signed whole numbers of base units. Amounts are subtracted in the base
-- units of the finer one.
use vnst_be.Base.{ℕ, ◌-◌, ◌*◌, ◌^◌, ◌+◌, Bool, false, ltb, leb, if◌then◌else◌, Option, none, some}
use vnst_be.Schema.Amount.{Amount, is_positive, zero_amount}

-- `negsuc n` is -(n + 1).
pub data ℤ : Type 0 where
  pos : ℕ → ℤ
  negsuc : ℕ → ℤ

abbrev pub sub_ℕ : ℕ → ℕ → ℤ
sub_ℕ a b = if leb b a then pos (a - b) else negsuc (b - a - 1)

pub record SignedAmount : Type 0 where
  pub units : ℤ
  pub decimals : ℕ

abbrev pub exact : Amount → SignedAmount
exact a = record { units = pos a.units; decimals = a.decimals }

unfoldable pub amount_difference : Amount → Amount → SignedAmount
amount_difference a b = record {
  units =
      sub_ℕ (a.units * 10 ^ (b.decimals - a.decimals)) (b.units * 10 ^ (a.decimals - b.decimals));
  decimals = a.decimals + (b.decimals - a.decimals);
}

abbrev pub is_positive_ℤ : ℤ → Bool
is_positive_ℤ (pos n) = ltb 0 n
is_positive_ℤ (negsuc n) = false

-- `total > 0 ? total : 0`.
unfoldable pub at_least_zero : SignedAmount → SignedAmount
at_least_zero a = if is_positive_ℤ a.units then a else exact zero_amount

-- `amount || 0`, where a missing amount is `undefined`.
unfoldable pub or_zero : Option Amount → Amount
or_zero none = zero_amount
or_zero (some a) = if is_positive a then a else zero_amount
