-- ===== src/Ton/Bytes.antt =====
-- The writes of Node's Buffer that `checkProof` makes, and its hex decoding. A value that does not
-- fit throws: `none`.
use vnst_be.Base.{
  ℕ, ◌+◌, ◌*◌, ◌/◌, ◌%◌, ◌^◌, Option, none, some, List, [], ◌∷◌, Text, ltb, ◌==◌, if◌then◌else◌,
}
use vnst_be.Utils.ParseInt.{Signed, plain, negative, digit_value}

-- `writeUInt32BE(n)` into four bytes.
unfoldable pub uint32_be : ℕ → List ℕ
uint32_be n = (n / 2 ^ 24 % 256) ∷ (n / 2 ^ 16 % 256) ∷ (n / 2 ^ 8 % 256) ∷ (n % 256) ∷ []

-- `writeUInt32LE(n)` into four bytes.
unfoldable pub uint32_le : ℕ → List ℕ
uint32_le n = (n % 256) ∷ (n / 2 ^ 8 % 256) ∷ (n / 2 ^ 16 % 256) ∷ (n / 2 ^ 24 % 256) ∷ []

-- `writeBigUInt64LE(BigInt(n))` into eight bytes.
unfoldable pub uint64_le : ℕ → List ℕ
uint64_le n =
    (n % 256)
    ∷ (n / 2 ^ 8 % 256)
    ∷ (n / 2 ^ 16 % 256)
    ∷ (n / 2 ^ 24 % 256)
    ∷ (n / 2 ^ 32 % 256)
    ∷ (n / 2 ^ 40 % 256)
    ∷ (n / 2 ^ 48 % 256)
    ∷ (n / 2 ^ 56 % 256)
    ∷ []

-- The range checks of the three writes.
unfoldable pub write_uint32_be : Signed → Option (List ℕ)
write_uint32_be (plain n) = if ltb n (2 ^ 32) then some (uint32_be n) else none
write_uint32_be (negative n) = if n == 0 then some (uint32_be 0) else none

unfoldable pub write_uint32_le : ℕ → Option (List ℕ)
write_uint32_le n = if ltb n (2 ^ 32) then some (uint32_le n) else none

unfoldable pub write_uint64_le : ℕ → Option (List ℕ)
write_uint64_le n = if ltb n (2 ^ 64) then some (uint64_le n) else none

-- `Buffer.from(s, "hex")`: pairs of digits up to the first that is none.
unfoldable pub from_hex : Text → List ℕ
from_hex [] = []
from_hex (a ∷ []) = []
from_hex (a ∷ b ∷ s) =
    let rest = from_hex s in
    elim (digit_value 16 a) [
      | none ↦ []
      | some hi ↦ elim (digit_value 16 b) [ none ↦ [] | some lo ↦ (hi * 16 + lo) ∷ rest ]
    ]
