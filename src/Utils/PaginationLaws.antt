-- ===== src/Utils/PaginationLaws.antt =====
-- On PaginationQueryPipeTransform, src/pipe/transform.pipe.ts.
use vnst_be.Base.{
  ℕ, zero, suc, ◌+◌, ◌*◌, ◌<◌, ◌≡◌, refl, sym, ap, ◌∙◌, List, [], ◌∷◌, ◌++◌, take, drop, arith,
}
use vnst_be.Utils.Pagination.{PaginationQuery, page_skip, transform_pagination}

-- The rows that the database returns for `skip` and `limit`, at a limit other than 0.
abbrev pub slice {ℓ} : {A : Type ℓ} → ℕ → ℕ → List A → List A
slice skip limit rows = take limit (drop skip rows)

abbrev pub page_rows {ℓ} : {A : Type ℓ} → PaginationQuery → List A → List A
page_rows q rows = slice (transform_pagination q).skip (transform_pagination q).limit rows

-- Pages 1 to n, one after the other.
abbrev pub pages {ℓ} : {A : Type ℓ} → PaginationQuery → ℕ → List A → List A
pages q zero rows = []
pages q (suc n) rows = pages q n rows ++ page_rows (record q { page = suc n }) rows

take-nil {ℓ} : {A : Type ℓ} (n : ℕ) → take {A = A} n [] ≡ []
take-nil zero = refl
take-nil (suc n) = refl

take-add {ℓ} :
    {A : Type ℓ} (a b : ℕ) (xs : List A) → take a xs ++ take b (drop a xs) ≡ take (a + b) xs
take-add zero b xs = let e : b ≡ 0 + b = omega arith in ap (λ n. take n xs) e
take-add (suc a) b [] = take-nil b ∙ sym (take-nil (suc a + b))
take-add (suc a) b (x ∷ xs) =
    let e : suc (a + b) ≡ suc a + b = omega arith in
    ap (◌∷◌ x) (take-add a b xs) ∙ ap (λ n. take n (x ∷ xs)) e

transform-page :
    (q : PaginationQuery) (n : ℕ)
    → 0 < q.limit
    → transform_pagination (record q { page = suc n })
      ≡ record q { page = suc n; skip = n * q.limit }
unfolding transform_pagination page_skip
transform-page q n h = ground arith

-- For a limit other than 0, the first n pages together are the first n * limit rows: no row is
-- lost or repeated between pages, and the order is kept.
pub pages-take {ℓ} :
    {A : Type ℓ} (q : PaginationQuery) (n : ℕ) (rows : List A)
    → 0 < q.limit
    → pages q n rows ≡ take (n * q.limit) rows
pages-take q zero rows h = let e : 0 ≡ 0 * q.limit = omega arith in ap (λ k. take k rows) e
pages-take q (suc n) rows h =
    let e : n * q.limit + q.limit ≡ suc n * q.limit = omega arith in
    rw (transform-page q n h, pages-take q n rows h)
      (take-add (n * q.limit) q.limit rows ∙ ap (λ k. take k rows) e)
