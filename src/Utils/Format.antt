-- ===== src/Utils/Format.antt =====
-- src/utils/helpers.ts: `addCommas`, `getDecimalPlaces` and `convertWalletToShortString`.
use vnst_be.Base.{
  ℕ, suc, ◌-◌, ◌%◌, Bool, false, ◌&&◌, ◌||◌, List, [], ◌∷◌, ◌++◌, Text, txt, ltb, leb, ◌==◌,
  if◌then◌else◌, split, take, drop, length,
}

abbrev pub is_digit : ℕ → Bool
is_digit c = leb b'0' c && leb c b'9'

-- `\w`: a letter, a digit or `_`.
abbrev pub is_word : ℕ → Bool
is_word c = is_digit c || (leb b'A' c && leb c b'Z') || (leb b'a' c && leb c b'z') || c == b'_'

-- The number of digits at the front.
unfoldable pub digit_run : Text → ℕ
digit_run [] = 0
digit_run (c ∷ s) = if is_digit c then suc (digit_run s) else 0

-- `(?=(\d{3})+(?!\d))`: the run of digits ahead has a length that is a positive multiple of three.
unfoldable pub grouped_ahead : Text → Bool
unfolding digit_run
grouped_ahead s = ltb 0 (digit_run s) && (digit_run s % 3 == 0)

-- `replace(/\B(?=(\d{3})+(?!\d))/g, ",")`, from a place whose left neighbour is a word character or
-- not. A digit stands to the right of each match, so `\B` asks for a word character on the left.
unfoldable pub commas_from : Bool → Text → Text
unfolding grouped_ahead
commas_from word [] = []
commas_from word (c ∷ s) =
    let rest = c ∷ commas_from (is_word c) s in
    if word && grouped_ahead (c ∷ s) then b',' ∷ rest else rest

unfoldable pub add_commas : Text → Text
unfolding commas_from
add_commas value = commas_from false value

-- `join(sep)`.
abbrev pub join : Text → List Text → Text
join sep [] = []
join sep (part ∷ []) = part
join sep (part ∷ more ∷ parts) = part ++ sep ++ join sep (more ∷ parts)

-- `parts[0] = f(parts[0])`.
abbrev pub map_head : (Text → Text) → List Text → List Text
map_head f [] = []
map_head f (part ∷ parts) = f part ∷ parts

-- `getDecimalPlaces(number, decimal)`; `rounded` is `number.toFixed(decimal)`.
unfoldable pub get_decimal_places : Text → Text
unfolding add_commas split
get_decimal_places rounded = join (txt ".") (map_head add_commas (split b'.' rounded))

-- `slice(-4)`.
abbrev pub slice_last : ℕ → Text → Text
slice_last n s = drop (length s - n) s

unfoldable pub convert_wallet_to_short_string : Text → Text
convert_wallet_to_short_string s = take 6 s ++ txt "..." ++ slice_last 4 s
