-- ===== src/Base/Decimal.antt =====
-- Numbers as JavaScript prints them: `n.toString()`, `String(n)` and a number in a template string.
use Prim.Native.Nat.{ℕ, zero, suc, ◌+◌, ◌/◌, ◌%◌}
use mathlib.Core.Path.{◌≡◌, refl, ap, ◌∙◌}
use mathlib.Core.Logic.{inl, inr}
use mathlib.Core.Bool.{true, false}
use mathlib.Core.List.{[], ◌∷◌}
use vnst_be.Base.Tests.{ltb, Bool-cases}
use vnst_be.Base.Texts.{Text, truthy}

-- The digits of `n` before `rest`, given more rounds than digits.
unfoldable pub digits_before : ℕ → ℕ → Text → Text
digits_before zero n rest = rest
digits_before (suc rounds) n rest = elim (ltb n 10) [
  | true ↦ (48 + n) ∷ rest
  | false ↦ digits_before rounds (n / 10) ((48 + n % 10) ∷ rest)
]

-- A number has fewer digits than its value and one.
unfoldable pub decimal : ℕ → Text
decimal n = digits_before (suc n) n []

pub digits_before-small :
    (rounds n : ℕ) (rest : Text)
    → ltb n 10 ≡ true
    → digits_before (suc rounds) n rest ≡ (48 + n) ∷ rest
unfolding digits_before
digits_before-small rounds n rest small = rw (small, digits_before)

pub digits_before-large :
    (rounds n : ℕ) (rest : Text)
    → ltb n 10 ≡ false
    → digits_before (suc rounds) n rest ≡ digits_before rounds (n / 10) ((48 + n % 10) ∷ rest)
unfolding digits_before
digits_before-large rounds n rest large = rw (large, digits_before)

digits_before-truthy :
    (rounds n c : ℕ) (rest : Text) → truthy (digits_before rounds n (c ∷ rest)) ≡ true
unfolding digits_before
digits_before-truthy zero n c rest = refl
digits_before-truthy (suc rounds) n c rest = elim (Bool-cases (ltb n 10)) [
  | inl small ↦ ap truthy (digits_before-small rounds n (c ∷ rest) small)
  | inr large ↦
      ap truthy (digits_before-large rounds n (c ∷ rest) large)
      ∙ digits_before-truthy rounds (n / 10) (48 + n % 10) (c ∷ rest)
]

-- A number is never printed as the empty text.
pub decimal-truthy : (n : ℕ) → truthy (decimal n) ≡ true
unfolding decimal
decimal-truthy n = elim (Bool-cases (ltb n 10)) [
  | inl small ↦ ap truthy (digits_before-small n n [] small)
  | inr large ↦
      ap truthy (digits_before-large n n [] large)
      ∙ digits_before-truthy n (n / 10) (48 + n % 10) []
]
