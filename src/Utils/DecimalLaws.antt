-- ===== src/Utils/DecimalLaws.antt =====
-- On `parseStringToNumber`, src/pipe/transform.pipe.ts, and the printing of numbers.
use vnst_be.Base.{
  ℕ, zero, suc, ◌+◌, ◌*◌, ◌/◌, ◌%◌, ◌<◌, ◌≡◌, refl, sym, ap, ◌∙◌, subst, inl, inr, true, none, some,
  [], ◌∷◌, Text, ltb, ltb→lt, Bool-cases, decimal, digits_before, digits_before-small,
  digits_before-large, trim_start, truthy, decimal-truthy, is_space, arith,
}
use vnst_be.Utils.Format.{is_digit}
use vnst_be.Utils.CommasLaws.{IsDigits}
use vnst_be.Utils.ParseInt.{
  plain, digit_value, digits_from, strip_hex, parse_unsigned, parse_sign, parse_int,
}
use vnst_be.Utils.Transform.{number, parse_string_to_number}

digit_value-digit : (d : ℕ) → d < 10 → digit_value 10 (48 + d) ≡ some d
unfolding digit_value
digit_value-digit d h = ground arith

digits_from-digit :
    (n d : ℕ) (s : Text)
    → d < 10
    → digits_from 10 (some n) ((48 + d) ∷ s) ≡ digits_from 10 (some (n * 10 + d)) s
unfolding digits_from
digits_from-digit n d s h = rw (digit_value-digit d h, digits_from)

digits_from-first :
    (d : ℕ) (s : Text) → d < 10 → digits_from 10 none ((48 + d) ∷ s) ≡ digits_from 10 (some d) s
unfolding digits_from
digits_from-first d s h = rw (digit_value-digit d h, digits_from)

-- Reading the digits of a number and what follows goes on from that number.
digits_from-digits_before :
    (rounds n : ℕ) (rest : Text)
    → n < rounds
    → digits_from 10 none (digits_before rounds n rest) ≡ digits_from 10 (some n) rest
digits_from-digits_before zero n rest h = absurd (omega arith)
digits_from-digits_before (suc rounds) n rest h = elim (Bool-cases (ltb n 10)) [
  | inl small ↦
      ap (digits_from 10 none) (digits_before-small rounds n rest small)
      ∙ digits_from-first n rest (ltb→lt n 10 small)
  | inr large ↦
      let big : n / 10 < rounds = ground arith in
      let e : n / 10 * 10 + n % 10 ≡ n = omega arith in
      ap (digits_from 10 none) (digits_before-large rounds n rest large)
      ∙ digits_from-digits_before rounds (n / 10) ((48 + n % 10) ∷ rest) big
      ∙ digits_from-digit (n / 10) (n % 10) rest (omega arith)
      ∙ ap (λ k. digits_from 10 (some k) rest) e
]

digits_before-IsDigits :
    (rounds n : ℕ) (rest : Text) → IsDigits rest → IsDigits (digits_before rounds n rest)
unfolding digits_before
digits_before-IsDigits zero n rest h = h
digits_before-IsDigits (suc rounds) n rest h = elim (Bool-cases (ltb n 10)) [
  | inl small ↦
      subst IsDigits (sym (digits_before-small rounds n rest small))
        (ground (arith, ltb→lt n 10 small), h)
  | inr large ↦
      subst IsDigits (sym (digits_before-large rounds n rest large))
        (digits_before-IsDigits rounds (n / 10) ((48 + n % 10) ∷ rest) (ground arith, h))
]

-- A number is printed as decimal digits.
pub decimal-IsDigits : (n : ℕ) → IsDigits (decimal n)
unfolding decimal
decimal-IsDigits n = digits_before-IsDigits (suc n) n [] tt

trim_start-digit : (c : ℕ) (s : Text) → is_digit c ≡ true → trim_start (c ∷ s) ≡ c ∷ s
unfolding trim_start is_space
trim_start-digit c s h = ground arith

strip_hex-digits : (s : Text) → IsDigits s → strip_hex s ≡ none
unfolding strip_hex
strip_hex-digits [] h = refl
strip_hex-digits (a ∷ []) h = refl
strip_hex-digits (a ∷ b ∷ s) h = ground (arith, h.1.0)

parse_sign-digits :
    (c : ℕ) (s : Text)
    → is_digit c ≡ true
    → {n : ℕ} → parse_unsigned none (c ∷ s) ≡ some n
    → parse_sign none (c ∷ s) ≡ some (plain n)
unfolding parse_sign
parse_sign-digits c s h e = ground (arith, e)

-- `parseInt` has nothing to drop in front of digits.
parse_int-digits :
    (s : Text)
    → IsDigits s
    → truthy s ≡ true
    → {n : ℕ} → digits_from 10 none s ≡ some n
    → parse_int none s ≡ some (plain n)
unfolding parse_int parse_unsigned
parse_int-digits [] h t e = absurd (ground (arith, t))
parse_int-digits (c ∷ s) h t e =
    ap (parse_sign none) (trim_start-digit c s h.0)
    ∙ parse_sign-digits c s h.0 (rw (strip_hex-digits (c ∷ s) h, parse_unsigned) e)

-- A whole number that a client prints into a query is read as that number.
pub parse_string_to_number-decimal :
    (n : ℕ) → parse_string_to_number (some (decimal n)) ≡ number (plain n)
unfolding parse_string_to_number decimal
parse_string_to_number-decimal n =
    rw
      (
        decimal-truthy n,
        parse_int-digits (decimal n) (decimal-IsDigits n) (decimal-truthy n)
            (digits_from-digits_before (suc n) n [] (omega arith)),
      )
      refl
