-- ===== src/Utils/ParseInt.antt =====
-- `parseInt` of JavaScript, over the code units of its argument. `none` is NaN. The digits are
-- added up exactly, without the rounding of large numbers.
use vnst_be.Base.{
  ℕ, ◌+◌, ◌-◌, ◌*◌, ◌&&◌, ◌||◌, Option, none, some, [], ◌∷◌, Text, ltb, leb, ◌==◌, if◌then◌else◌,
  trim_start,
}

-- A signed whole number: `negative n` is -n. (JavaScript tells 0 and -0 apart too.)
pub data Signed : Type 0 where
  plain negative : ℕ → Signed

-- The value of a digit in a radix up to 36.
unfoldable pub digit_value : ℕ → ℕ → Option ℕ
digit_value radix c =
    let v =
      if leb b'0' c && leb c b'9'
      then c - 48
      else if leb b'a' c && leb c b'z'
      then c - 87
      else if leb b'A' c && leb c b'Z'
      then c - 55
      else 36 in
    if ltb v radix then some v else none

-- The digits from the left as far as they go; `seen` is the value so far.
unfoldable pub digits_from : ℕ → Option ℕ → Text → Option ℕ
unfolding digit_value
digits_from radix seen [] = seen
digits_from radix none (c ∷ s) = elim (digit_value radix c) [
  | none ↦ none
  | some d ↦ digits_from radix (some d) s
]
digits_from radix (some n) (c ∷ s) = elim (digit_value radix c) [
  | none ↦ some n
  | some d ↦ digits_from radix (some (n * radix + d)) s
]

-- A prefix `0x` or `0X` is dropped where the radix is 16 or not given.
unfoldable pub strip_hex : Text → Option Text
strip_hex [] = none
strip_hex (a ∷ []) = none
strip_hex (a ∷ b ∷ s) = if a == b'0' && (b == b'x' || b == b'X') then some s else none

-- `parseInt(s)` after white space and sign.
unfoldable pub parse_unsigned : Option ℕ → Text → Option ℕ
unfolding digits_from strip_hex
parse_unsigned none s = elim (strip_hex s) [
  | none ↦ digits_from 10 none s
  | some r ↦ digits_from 16 none r
]
parse_unsigned (some radix) s =
    if radix == 16
    then elim (strip_hex s) [ none ↦ digits_from 16 none s | some r ↦ digits_from 16 none r ]
    else digits_from radix none s

abbrev signed : (ℕ → Signed) → Option ℕ → Option Signed
signed sign none = none
signed sign (some n) = some (sign n)

unfoldable pub parse_sign : Option ℕ → Text → Option Signed
unfolding parse_unsigned
parse_sign radix [] = none
parse_sign radix (c ∷ s) =
    if c == b'-'
    then signed negative (parse_unsigned radix s)
    else if c == b'+'
    then signed plain (parse_unsigned radix s)
    else signed plain (parse_unsigned radix (c ∷ s))

unfoldable pub parse_int : Option ℕ → Text → Option Signed
unfolding parse_sign trim_start
parse_int radix s = parse_sign radix (trim_start s)
