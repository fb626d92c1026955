-- ===== src/Ton/WalletKey.antt =====
-- src/modules/ton/ton.service.ts: the bytes of a public key that `getWalletPublicKey` makes of the
-- number from the wallet's get-method, `Buffer.from(n.toString(16).padStart(64, "0"), "hex")`.
use vnst_be.Base.{
  ℕ, zero, suc, ◌+◌, ◌-◌, ◌/◌, ◌%◌, true, false, List, [], ◌∷◌, ◌++◌, map, length, Text, ltb,
  if◌then◌else◌,
}
use vnst_be.Ton.Bytes.{from_hex}

abbrev pub hex_digit : ℕ → ℕ
hex_digit d = if ltb d 10 then 48 + d else 87 + d

-- The digits of `n` in radix 16 before `rest`, given more rounds than digits.
unfoldable pub nibbles_before : ℕ → ℕ → List ℕ → List ℕ
nibbles_before zero n rest = rest
nibbles_before (suc rounds) n rest = elim (ltb n 16) [
  | true ↦ n ∷ rest
  | false ↦ nibbles_before rounds (n / 16) (n % 16 ∷ rest)
]

-- `n.toString(16)`. A number has fewer digits than its value and one.
unfoldable pub to_hex : ℕ → Text
to_hex n = map hex_digit (nibbles_before (suc n) n [])

unfoldable pub copies : ℕ → ℕ → Text
copies zero c = []
copies (suc k) c = c ∷ copies k c

-- `s.padStart(width, "0")`.
unfoldable pub pad_start : ℕ → Text → Text
pad_start width s = copies (width - length s) b'0' ++ s

unfoldable pub key_bytes : ℕ → List ℕ
key_bytes n = from_hex (pad_start 64 (to_hex n))
