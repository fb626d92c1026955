-- ===== src/Ton/WalletKeyLaws.antt =====
-- On the bytes of a public key, src/modules/ton/ton.service.ts.
use vnst_be.Base.{
  ℕ, zero, suc, ◌+◌, ◌-◌, ◌*◌, ◌/◌, ◌%◌, ◌^◌, ◌≤◌, ◌<◌, ◌≡◌, refl, ap, ◌∙◌, inl, inr, true, false,
  some, List, [], ◌∷◌, ◌++◌, map, length, All, ltb, Bool-cases, arith, length-append, All-append,
  ltb→lt,
}
use vnst_be.Utils.ParseInt.{digit_value}
use vnst_be.Ton.Bytes.{from_hex}
use vnst_be.Ton.WalletKey.{hex_digit, nibbles_before, to_hex, copies, pad_start, key_bytes}

-- The number that digits show, from the value so far.
abbrev pub value_in : ℕ → ℕ → List ℕ → ℕ
value_in base seen [] = seen
value_in base seen (d ∷ ds) = value_in base (seen * base + d) ds

-- The number that bytes show, the first one the most significant.
abbrev pub big_endian : List ℕ → ℕ
big_endian = value_in 256 0

abbrev AreNibbles : List ℕ → Type 0
AreNibbles = All (λ d. d < 16)

nibbles_before-small :
    (rounds n : ℕ) (rest : List ℕ) → ltb n 16 ≡ true → nibbles_before (suc rounds) n rest ≡ n ∷ rest
unfolding nibbles_before
nibbles_before-small rounds n rest small = rw (small, nibbles_before)

nibbles_before-large :
    (rounds n : ℕ) (rest : List ℕ)
    → ltb n 16 ≡ false
    → nibbles_before (suc rounds) n rest ≡ nibbles_before rounds (n / 16) (n % 16 ∷ rest)
unfolding nibbles_before
nibbles_before-large rounds n rest large = rw (large, nibbles_before)

value-nibbles_before :
    (rounds n : ℕ) (rest : List ℕ)
    → n < rounds
    → value_in 16 0 (nibbles_before rounds n rest) ≡ value_in 16 n rest
value-nibbles_before zero n rest h = absurd (omega arith)
value-nibbles_before (suc rounds) n rest h = elim (Bool-cases (ltb n 16)) [
  | inl small ↦
      let whole : 0 * 16 + n ≡ n = omega arith in
      rw (nibbles_before-small rounds n rest small) (ap (λ m. value_in 16 m rest) whole)
  | inr large ↦
      let fewer : n / 16 < rounds = ground (arith, large, h) in
      let whole : n / 16 * 16 + n % 16 ≡ n = omega arith in
      rw (nibbles_before-large rounds n rest large) (
        value-nibbles_before rounds (n / 16) (n % 16 ∷ rest) fewer
        ∙ ap (λ m. value_in 16 m rest) whole)
]

nibbles_before-AreNibbles :
    (rounds n : ℕ) (rest : List ℕ) → AreNibbles rest → AreNibbles (nibbles_before rounds n rest)
unfolding nibbles_before
nibbles_before-AreNibbles zero n rest h = h
nibbles_before-AreNibbles (suc rounds) n rest h = elim (Bool-cases (ltb n 16)) [
  | inl small ↦ rw (nibbles_before-small rounds n rest small) (ltb→lt n 16 small, h)
  | inr large ↦
      rw (nibbles_before-large rounds n rest large)
        (nibbles_before-AreNibbles rounds (n / 16) (n % 16 ∷ rest) (omega arith, h))
]

length-nibbles_before :
    (k rounds n : ℕ) (rest : List ℕ)
    → n < 16 ^ suc k
    → length (nibbles_before rounds n rest) ≤ suc k + length rest
unfolding nibbles_before
length-nibbles_before k zero n rest h = omega arith
length-nibbles_before zero (suc rounds) n rest h =
    let small : ltb n 16 ≡ true = ground (arith, h) in
    rw (nibbles_before-small rounds n rest small) (omega arith)
length-nibbles_before (suc k) (suc rounds) n rest h = elim (Bool-cases (ltb n 16)) [
  | inl small ↦ rw (nibbles_before-small rounds n rest small) (omega arith)
  | inr large ↦
      let fewer : n / 16 < 16 ^ suc k = omega arith in
      rw (nibbles_before-large rounds n rest large)
        (omega (arith, length-nibbles_before k rounds (n / 16) (n % 16 ∷ rest) fewer))
]

-- Zeros in front.
abbrev zeros : ℕ → List ℕ
zeros zero = []
zeros (suc k) = 0 ∷ zeros k

value-zeros : (k : ℕ) (ds : List ℕ) → value_in 16 0 (zeros k ++ ds) ≡ value_in 16 0 ds
value-zeros zero ds = refl
value-zeros (suc k) ds = value-zeros k ds

zeros-AreNibbles : (k : ℕ) → AreNibbles (zeros k)
zeros-AreNibbles zero = tt
zeros-AreNibbles (suc k) = (omega arith, zeros-AreNibbles k)

length-zeros : (k : ℕ) → length (zeros k) ≡ k
length-zeros zero = refl
length-zeros (suc k) = ap suc (length-zeros k)

length-hex : (ds : List ℕ) → length (map hex_digit ds) ≡ length ds
length-hex [] = refl
length-hex (d ∷ ds) = ap suc (length-hex ds)

copies-hex :
    (k : ℕ) (ds : List ℕ) → copies k b'0' ++ map hex_digit ds ≡ map hex_digit (zeros k ++ ds)
unfolding copies
copies-hex zero ds = refl
copies-hex (suc k) ds = ap (◌∷◌ 48) (copies-hex k ds)

-- Digits taken two by two.
abbrev pairs : List ℕ → List ℕ
pairs [] = []
pairs (a ∷ []) = []
pairs (a ∷ b ∷ ds) = (a * 16 + b) ∷ pairs ds

digit_value-hex_digit : (d : ℕ) → d < 16 → digit_value 16 (hex_digit d) ≡ some d
unfolding digit_value
digit_value-hex_digit d h = ground arith

from_hex-pairs : (ds : List ℕ) → AreNibbles ds → from_hex (map hex_digit ds) ≡ pairs ds
unfolding from_hex
from_hex-pairs [] h = refl
from_hex-pairs (a ∷ []) h = refl
from_hex-pairs (a ∷ b ∷ ds) (ha, (hb, h)) =
    rw (from_hex, digit_value-hex_digit a ha, digit_value-hex_digit b hb)
      (ap (◌∷◌ (a * 16 + b)) (from_hex-pairs ds h))

length-pairs : (k : ℕ) (ds : List ℕ) → length ds ≡ 2 * k → length (pairs ds) ≡ k
length-pairs zero [] h = refl
length-pairs (suc k) [] h = absurd (omega arith)
length-pairs k (a ∷ []) h = absurd (omega arith)
length-pairs zero (a ∷ b ∷ ds) h = absurd (omega arith)
length-pairs (suc k) (a ∷ b ∷ ds) h = ap suc (length-pairs k ds (omega arith))

value-pairs :
    (k seen : ℕ) (ds : List ℕ)
    → length ds ≡ 2 * k
    → value_in 256 seen (pairs ds) ≡ value_in 16 seen ds
value-pairs k seen [] h = refl
value-pairs k seen (a ∷ []) h = absurd (omega arith)
value-pairs zero seen (a ∷ b ∷ ds) h = absurd (omega arith)
value-pairs (suc k) seen (a ∷ b ∷ ds) h =
    let same : seen * 256 + (a * 16 + b) ≡ (seen * 16 + a) * 16 + b = omega arith in
    value-pairs k (seen * 256 + (a * 16 + b)) ds (omega arith) ∙ ap (λ m. value_in 16 m ds) same

pairs-bytes : (ds : List ℕ) → AreNibbles ds → All (λ b. b < 256) (pairs ds)
pairs-bytes [] h = tt
pairs-bytes (a ∷ []) h = tt
pairs-bytes (a ∷ b ∷ ds) (ha, (hb, h)) = (omega arith, pairs-bytes ds h)

-- A public key below 2^256 becomes exactly 32 bytes, each below 256, which show its number from the
-- most significant byte on.
pub big_endian-key_bytes :
    (n : ℕ)
    → n < 2 ^ 256
    → (length (key_bytes n) ≡ 32)
      × All (λ b. b < 256) (key_bytes n)
      × (big_endian (key_bytes n) ≡ n)
unfolding key_bytes pad_start to_hex
big_endian-key_bytes n h =
    let digits = nibbles_before (suc n) n [] in
    let missing = 64 - length (map hex_digit digits) in
    let all = zeros missing ++ digits in
    let narrow : length digits ≤ 64 = length-nibbles_before 63 (suc n) n [] (omega arith) in
    let wide : length all ≡ 2 * 32 = omega (
      arith,
      length-append (zeros missing) digits,
      length-zeros missing,
      length-hex digits,
      narrow,
    ) in
    let nibbles : AreNibbles all =
      All-append _ (zeros missing) digits (zeros-AreNibbles missing)
        (nibbles_before-AreNibbles (suc n) n [] tt) in
    let bytes : key_bytes n ≡ pairs all =
      ap from_hex (copies-hex missing digits) ∙ from_hex-pairs all nibbles in
    let value : value_in 256 0 (pairs all) ≡ n =
      value-pairs 32 0 all wide
      ∙ value-zeros missing digits
      ∙ value-nibbles_before (suc n) n [] (omega arith) in
    rw bytes (length-pairs 32 all wide, pairs-bytes all nibbles, value)
