-- ===== src/App/UnitLaws.antt =====
-- On amounts of one number of decimals, and their differences.
use vnst_be.Base.{
  ℕ, ◌-◌, ◌*◌, ◌^◌, ◌+◌, ◌≡◌, refl, ◌⊎◌, inl, inr, none, some, List, [], ◌∷◌, arith, Bool-cases,
  ltb, true, false,
}
use vnst_be.Schema.Amount.{Amount, is_positive}
use vnst_be.Schema.Signed.{
  ℤ, pos, sub_ℕ, SignedAmount, amount_difference, is_positive_ℤ, at_least_zero, or_zero,
}

abbrev pub sum_of {ℓ} : {A : Type ℓ} → (A → ℕ) → List A → ℕ
sum_of f [] = 0
sum_of f (x ∷ xs) = f x + sum_of f xs

module _ (k : ℕ) where
  -- The amount is n base units of k decimals, where 0 may be written without decimals.
  abbrev pub IsUnits : Amount → ℕ → Type 0
  IsUnits a n = (a.units ≡ n) × ((a.decimals ≡ k) ⊎ ((n ≡ 0) × (a.decimals ≡ 0)))

  abbrev pub IsSignedUnits : SignedAmount → ℤ → Type 0
  IsSignedUnits a z = (a.units ≡ z) × ((a.decimals ≡ k) ⊎ (z ≡ pos 0))

  pub or_zero-IsUnits :
      (a : Amount) (n : ℕ) → a.units ≡ n → a.decimals ≡ k → IsUnits (or_zero (some a)) n
  unfolding or_zero
  or_zero-IsUnits a n e d = elim (Bool-cases (is_positive a)) [
    | inl positive ↦ rw positive (e, inl d)
    | inr none_left ↦
        rw none_left (ground (arith, e, none_left), inr (ground (arith, e, none_left), refl))
  ]

  pub zero-IsUnits : (n : ℕ) → n ≡ 0 → IsUnits (or_zero none) n
  unfolding or_zero
  zero-IsUnits n e = (omega arith, inr (e, refl))

  unscaled : (x d : ℕ) → d ≡ 0 → x * 10 ^ d ≡ x
  unscaled x d e = rw e (omega arith)

  same_scale : (x i j : ℕ) → i ≡ k → j ≡ k → x * 10 ^ (i - j) ≡ x
  same_scale x i j p q = unscaled x (i - j) (omega arith)

  from_nothing : (x i j : ℕ) → i ≡ 0 → x * 10 ^ (i - j) ≡ x
  from_nothing x i j p = unscaled x (i - j) (omega arith)

  nothing_scaled : (x d : ℕ) → x ≡ 0 → x * d ≡ 0
  nothing_scaled x d e = rw e (omega arith)

  pub difference-IsSignedUnits :
      (a b : Amount) (m n : ℕ)
      → IsUnits a m
      → IsUnits b n
      → IsSignedUnits (amount_difference a b) (sub_ℕ m n)
  unfolding amount_difference
  difference-IsSignedUnits a b m n (ea, inl ka) (eb, inl kb) =
      rw
        (
          same_scale a.units b.decimals a.decimals kb ka,
          same_scale b.units a.decimals b.decimals ka kb,
          ea,
          eb,
        )
        (refl, inl (omega arith))
  difference-IsSignedUnits a b m n (ea, inl ka) (eb, inr (zb, kb)) =
      rw
        (
          from_nothing a.units b.decimals a.decimals kb,
          nothing_scaled b.units (10 ^ (a.decimals - b.decimals)) (omega arith),
          ea,
          zb,
        )
        (refl, inl (omega arith))
  difference-IsSignedUnits a b m n (ea, inr (za, ka)) (eb, inl kb) =
      rw
        (
          from_nothing b.units a.decimals b.decimals ka,
          nothing_scaled a.units (10 ^ (b.decimals - a.decimals)) (omega arith),
          eb,
          za,
        )
        (refl, inl (omega arith))
  difference-IsSignedUnits a b m n (ea, inr (za, ka)) (eb, inr (zb, kb)) =
      rw
        (
          nothing_scaled a.units (10 ^ (b.decimals - a.decimals)) (omega arith),
          nothing_scaled b.units (10 ^ (a.decimals - b.decimals)) (omega arith),
          za,
          zb,
        )
        (refl, inr refl)

  is_positive-sub : (m n : ℕ) → is_positive_ℤ (sub_ℕ m n) ≡ ltb n m
  is_positive-sub m n = ground arith

  sub_more : (m n : ℕ) → ltb n m ≡ true → sub_ℕ m n ≡ pos (m - n)
  sub_more m n h = ground (arith, h)

  nothing_left : (m n : ℕ) → ltb n m ≡ false → m - n ≡ 0
  nothing_left m n h = ground (arith, h)

  pub at_least_zero-IsSignedUnits :
      (a : SignedAmount) (m n : ℕ)
      → IsSignedUnits a (sub_ℕ m n)
      → IsSignedUnits (at_least_zero a) (pos (m - n))
  unfolding at_least_zero
  at_least_zero-IsSignedUnits a m n (e, d) = elim (Bool-cases (ltb n m)) [
    | inl more ↦
        let d' : (a.decimals ≡ k) ⊎ (pos (m - n) ≡ pos 0) = rw (sub_more m n more) at d in
        rw (e, is_positive-sub m n, more) (sub_more m n more, d')
    | inr less ↦ rw (e, is_positive-sub m n, less, nothing_left m n less) (refl, inr refl)
  ]
