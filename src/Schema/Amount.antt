-- ===== src/Schema/Amount.antt =====
-- Decimal amounts. The program holds them as JavaScript numbers, quotients of a whole number of
-- base units by a power of ten (`x / 10 ** 6`, `fromWei(x, "ether")`, `formatUnits(x, 6)`). The model
-- keeps that quotient exact, as its two parts, and leaves out the rounding to binary.
use vnst_be.Base.{ℕ, Bool, ltb}

pub record Amount : Type 0 where
  pub units : ℕ
  pub decimals : ℕ

-- `Number(formatUnits(value, decimals))`.
abbrev pub format_units : ℕ → ℕ → Amount
format_units value decimals = record { units = value; decimals = decimals }

-- `Number(Web3.utils.fromWei(value, "ether"))`, and the division by DECIMALS = 10 ** 18.
abbrev pub from_wei : ℕ → Amount
from_wei value = record { units = value; decimals = 18 }

abbrev pub zero_amount : Amount
zero_amount = record { units = 0; decimals = 0 }

-- `{ $gt: 0 }`.
abbrev pub is_positive : Amount → Bool
is_positive a = ltb 0 a.units
