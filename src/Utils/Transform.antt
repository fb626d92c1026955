-- ===== src/Utils/Transform.antt =====
-- src/pipe/transform.pipe.ts: the class Transformation, and src/pipe/parse-object-id.pipe.ts.
-- `undefined` is `none`. `parseFloat` and the unary `+` of `parseStringToFloat` and
-- `checkStringIsNumber` read decimal fractions: their value is a parameter.
use vnst_be.Http.{forbidden_exception}
use vnst_be.Base.{
  ℕ, zero, suc, Bool, false, ◌||◌, Option, none, some, Text, decimal, txt, ltb, truthy, text_eq,
  if◌then◌else◌, to_lower_case, to_upper_case, trim, Exception, http_exception, ◌++◌,
}
use vnst_be.Utils.ParseInt.{Signed, plain, negative, parse_int}

-- `n < 0`.
abbrev pub is_negative : Signed → Bool
is_negative (plain n) = false
is_negative (negative n) = ltb 0 n

abbrev pub forbidden : Text → Exception
forbidden = forbidden_exception

-- The outcome of `parseStringToNumber`: `undefined`, NaN, or a number.
pub data Parsed : Type 0 where
  undefined nan : Parsed
  number : Signed → Parsed

abbrev parsed_number : Option Signed → Parsed
parsed_number none = nan
parsed_number (some n) = if is_negative n then undefined else number n

unfoldable pub parse_string_to_number : Option Text → Parsed
unfolding parse_int
parse_string_to_number none = undefined
parse_string_to_number (some value) =
    if truthy value then parsed_number (parse_int none value) else undefined

-- `parseFloat(value)` is `value_of value`, and `below_zero` its test `< 0`.
unfoldable pub parse_string_to_float {ℓ} :
    {N : Type ℓ} → (Text → N) → (N → Bool) → Option Text → Option N
parse_string_to_float value_of below_zero none = none
parse_string_to_float value_of below_zero (some value) =
    if truthy value
    then if below_zero (value_of value) then none else some (value_of value)
    else none

unfoldable pub parse_string_to_boolean : Option Text → Option Bool
parse_string_to_boolean none = none
parse_string_to_boolean (some value) =
    if truthy value then some (text_eq value (txt "true")) else none

-- A value that is returned: the number itself, or an exception object. Neither is thrown.
pub data Validated {ℓ} (A : Type ℓ) : Type ℓ where
  value : A → Validated A
  exception : Exception → Validated A

-- `Number.isNaN(+value)` is `is_nan`.
unfoldable pub check_string_is_number : (Text → Bool) → Text → Validated Text
check_string_is_number is_nan s =
    if is_nan s then exception (forbidden (txt "Id wrong, please check again!")) else value s

-- A bound `to` of 0 counts as absent.
unfoldable pub validate_above : ℕ → ℕ → Validated ℕ
validate_above n from =
    if ltb n from
    then exception (forbidden (txt "Value must be greater than " ++ decimal from))
    else value n

unfoldable pub validate_number : ℕ → ℕ → Option ℕ → Validated ℕ
unfolding validate_above
validate_number n from none = validate_above n from
validate_number n from (some zero) = validate_above n from
validate_number n from (some (suc top)) =
    if ltb n from || ltb (suc top) n
    then exception (
        forbidden (
          txt "Value must be in the range from: "
          ++ decimal from
          ++ txt " to "
          ++ decimal (suc top)))
    else value n

-- A method call on `undefined` throws a TypeError: that is `none` here.
abbrev pub on_text : (Text → Text) → Option Text → Option Text
on_text f none = none
on_text f (some s) = some (f s)

unfoldable pub trim_string : Option Text → Option Text
trim_string = on_text trim

unfoldable pub lower_case_string : Option Text → Option Text
lower_case_string = on_text to_lower_case

unfoldable pub lower_case_and_trim_string : Option Text → Option Text
lower_case_and_trim_string = on_text (λ s. trim (to_lower_case s))

unfoldable pub upper_case_string : Option Text → Option Text
upper_case_string = on_text (λ s. trim (to_upper_case s))

-- `ParseObjectIdPipe.transform`; `Types.ObjectId.isValid` is a parameter. The pipe throws.
unfoldable pub parse_object_id : (Text → Bool) → Text → Validated Text
parse_object_id is_valid s =
    if is_valid s then value s else exception (http_exception 400 (txt "Invalid ObjectId"))
