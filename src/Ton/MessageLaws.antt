-- ===== src/Ton/MessageLaws.antt =====
-- On the message that a wallet signs, src/modules/ton/ton-proof.service.ts.
use vnst_be.Base.{ℕ, ◌<◌, ◌^◌, ◌≡◌, refl, sym, ◌∙◌, List, length, append-injective}
use vnst_be.Utils.Retry.{Timer}
use vnst_be.Ton.Cells.{Cells}
use vnst_be.Ton.Bytes.{uint32_be, uint32_le, uint64_le}
use vnst_be.Ton.BytesLaws.{
  uint32_be-injective, uint32_le-injective, uint64_le-injective, length-uint32_be, length-uint32_le,
  length-uint64_le,
}
use vnst_be.Ton.Proof.{Proof, TonCrypto, proof_message, ton_proof_prefix}

module _ {W Cell Slice : Type 0} (timer : Timer W) (cells : Cells Cell Slice)
    (c : TonCrypto W Cell) where
  -- The message fixes what is signed: for two proofs whose address hashes are equally long and whose
  -- declared domain lengths are those of their domains, equal messages have equal workchains,
  -- address hashes, domains, timestamps and payloads (texts by their bytes).
  pub proof_message-injective :
      (m n : ℕ) (h k : List ℕ) (p q : Proof)
      → m < 2 ^ 32
      → n < 2 ^ 32
      → length h ≡ length k
      → length (c.utf8 p.domain.value) ≡ p.domain.length_bytes
      → length (c.utf8 q.domain.value) ≡ q.domain.length_bytes
      → p.domain.length_bytes < 2 ^ 32
      → q.domain.length_bytes < 2 ^ 32
      → p.timestamp < 2 ^ 64
      → q.timestamp < 2 ^ 64
      → proof_message timer cells c
          (uint32_be m)
          h
          (uint32_le p.domain.length_bytes)
          (uint64_le p.timestamp)
          p
        ≡ proof_message timer cells c
            (uint32_be n)
            k
            (uint32_le q.domain.length_bytes)
            (uint64_le q.timestamp)
            q
      → (m ≡ n)
        × (h ≡ k)
        × (c.utf8 p.domain.value ≡ c.utf8 q.domain.value)
        × (p.timestamp ≡ q.timestamp)
        × (c.utf8 p.payload ≡ c.utf8 q.payload)
  unfolding proof_message
  proof_message-injective m n h k p q hm hn hl dp dq bp bq tp tq e =
      let pre = c.utf8 ton_proof_prefix in
      let (_, e1) = append-injective pre pre _ _ refl e in
      let (wc, e2) = append-injective (uint32_be m) (uint32_be n) _ _ (length-uint32_be m n) e1 in
      let (hash, e3) = append-injective h k _ _ hl e2 in
      let (dl, e4) =
        append-injective (uint32_le p.domain.length_bytes) (uint32_le q.domain.length_bytes) _ _
          (length-uint32_le _ _) e3 in
      let same = uint32_le-injective _ _ bp bq dl in
      let (domain, e5) =
        append-injective (c.utf8 p.domain.value) (c.utf8 q.domain.value) _ _ (dp ∙ same ∙ sym dq)
          e4 in
      let (ts, payload) =
        append-injective (uint64_le p.timestamp) (uint64_le q.timestamp) _ _ (length-uint64_le _ _)
          e5 in
      (uint32_be-injective m n hm hn wc, hash, domain, uint64_le-injective _ _ tp tq ts, payload)
