-- ===== src/Ton/BytesLaws.antt =====
-- On the fixed-width writes of `checkProof`, src/modules/ton/ton-proof.service.ts.
use vnst_be.Base.{ℕ, ◌^◌, ◌<◌, ◌≡◌, refl, arith, length}
use vnst_be.Ton.Bytes.{uint32_be, uint32_le, uint64_le}

pub uint32_be-injective : (m n : ℕ) → m < 2 ^ 32 → n < 2 ^ 32 → uint32_be m ≡ uint32_be n → m ≡ n
unfolding uint32_be
uint32_be-injective m n h k e = ground arith

pub uint32_le-injective : (m n : ℕ) → m < 2 ^ 32 → n < 2 ^ 32 → uint32_le m ≡ uint32_le n → m ≡ n
unfolding uint32_le
uint32_le-injective m n h k e = ground arith

pub uint64_le-injective : (m n : ℕ) → m < 2 ^ 64 → n < 2 ^ 64 → uint64_le m ≡ uint64_le n → m ≡ n
unfolding uint64_le
uint64_le-injective m n h k e = ground arith

pub length-uint32_be : (m n : ℕ) → length (uint32_be m) ≡ length (uint32_be n)
unfolding uint32_be
length-uint32_be m n = refl

pub length-uint32_le : (m n : ℕ) → length (uint32_le m) ≡ length (uint32_le n)
unfolding uint32_le
length-uint32_le m n = refl

pub length-uint64_le : (m n : ℕ) → length (uint64_le m) ≡ length (uint64_le n)
unfolding uint64_le
length-uint64_le m n = refl
