-- ===== src/EventLogs/ScanLaws.antt =====
-- On the ranges of blocks of `scanEventLog`, src/modules/event-logs/event-logs.service.ts.
use mathlib.Core.List.{Memᴰ}
use mathlib.Core.List.Memᴰ
use vnst_be.Base.{
  ℕ, zero, suc, ◌+◌, ◌-◌, ◌*◌, ◌≤◌, ◌<◌, ◌≡◌, refl, sym, subst, inl, inr, true, false, List, [],
  ◌++◌, leb, if◌then◌else◌, leb→le, le→leb, Bool-cases, arith,
}
use vnst_be.EventLogs.Scan.{max_block_range, clip}

module _ {A : Type 0} (at_block : ℕ → List A) where
  -- What the first `n` blocks from `from` on hold.
  unfoldable pub blocks : ℕ → ℕ → List A
  blocks from zero = []
  blocks from (suc n) = at_block from ++ blocks (from + 1) n

  -- The blocks from `from` to `to`, both included.
  abbrev pub between : ℕ → ℕ → List A
  between from to = blocks from (to + 1 - from)

  mem-blocks :
      (from n b : ℕ) {x : A}
      → from ≤ b
      → b < from + n
      → Memᴰ x (at_block b)
      → Memᴰ x (blocks from n)
  unfolding blocks
  mem-blocks from zero b lo hi m = absurd (omega arith)
  mem-blocks from (suc n) b {x} lo hi m = elim (Bool-cases (leb (from + 1) b)) [
    | inl more ↦
        Memᴰ.append_right (at_block from)
          (mem-blocks (from + 1) n b (leb→le (from + 1) b more) (omega arith) m)
    | inr first ↦
        let e : b ≡ from = ground arith in
        Memᴰ.append_left (blocks (from + 1) n) (subst (λ k. Memᴰ x (at_block k)) e m)
  ]

  blocks-mem :
      (from n : ℕ) {x : A}
      → Memᴰ x (blocks from n)
      → (b : ℕ) × (from ≤ b) × (b < from + n) × Memᴰ x (at_block b)
  unfolding blocks
  blocks-mem from zero m = absurd (Memᴰ.not-nil m)
  blocks-mem from (suc n) m = elim (Memᴰ.append_cases (at_block from) m) [
    | inl here ↦ (from, omega arith, omega arith, here)
    | inr later ↦
        let (b, lo, hi, found) = blocks-mem (from + 1) n later in
        (b, omega arith, omega arith, found)
  ]

  -- What the ranges of the loop fetch, one after the other.
  unfoldable pub fetched : ℕ → ℕ → ℕ → List A
  fetched zero from current = []
  fetched (suc fuel) from current =
      let rest = fetched fuel (from + max_block_range) current in
      if leb from current then between from (clip (from + max_block_range) current) ++ rest else []

  pub fetched-more :
      (fuel from current : ℕ)
      → leb from current ≡ true
      → fetched (suc fuel) from current
        ≡ between from (clip (from + max_block_range) current)
          ++ fetched fuel (from + max_block_range) current
  unfolding fetched
  fetched-more fuel from current h = rw h

  pub fetched-done :
      (fuel from current : ℕ) → leb from current ≡ false → fetched fuel from current ≡ []
  unfolding fetched
  fetched-done zero from current h = refl
  fetched-done (suc fuel) from current h = rw h

  -- Every block is fetched.
  pub mem-fetched :
      (fuel from current b : ℕ) {x : A}
      → current < from + fuel * 5000
      → from ≤ b
      → b ≤ current
      → Memᴰ x (at_block b)
      → Memᴰ x (fetched fuel from current)
  mem-fetched zero from current b enough lo hi m = absurd (omega arith)
  mem-fetched (suc fuel) from current b {x} enough lo hi m =
      subst (λ xs. Memᴰ x xs)
        (sym (fetched-more fuel from current (le→leb from current (omega arith))))
        (elim (Bool-cases (leb b (clip (from + 5000) current))) [
          | inl here ↦
              Memᴰ.append_left (fetched fuel (from + 5000) current)
                (mem-blocks from _ b lo (ground arith) m)
          | inr later ↦
              Memᴰ.append_right (between from (clip (from + 5000) current))
                (mem-fetched fuel (from + 5000) current b (omega arith) (ground arith) hi m)
        ])

  -- And nothing else.
  pub fetched-mem :
      (fuel from current : ℕ) {x : A}
      → Memᴰ x (fetched fuel from current)
      → (b : ℕ) × (from ≤ b) × (b ≤ current) × Memᴰ x (at_block b)
  unfolding fetched
  fetched-mem zero from current m = absurd (Memᴰ.not-nil m)
  fetched-mem (suc fuel) from current {x} m = elim (Bool-cases (leb from current)) [
    | inr done ↦
        absurd
          (Memᴰ.not-nil (subst (λ xs. Memᴰ x xs) (fetched-done (suc fuel) from current done) m))
    | inl more ↦
        elim (Memᴰ.append_cases (between from (clip (from + 5000) current))
          (subst (λ xs. Memᴰ x xs) (fetched-more fuel from current more) m)) [
            | inl here ↦
                let (b, lo, hi, found) = blocks-mem from _ here in (b, lo, ground arith, found)
            | inr later ↦
                let (b, lo, hi, found) = fetched-mem fuel (from + 5000) current later in
                (b, omega arith, hi, found)
          ]
  ]
