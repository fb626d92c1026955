-- ===== src/Utils/RetryLaws.antt =====
-- On `retry`, src/utils/helpers.ts.
use vnst_be.Base.{
  ℕ, zero, suc, ◌<◌, ◌≡◌, refl, ap, ◌⊎◌, inl, inr, Option, none, some, List, [], ◌∷◌, ◌++◌, length,
  All, Text, txt, Exception, http_exception, error, other_value, Io, Result, ok, thrown, arith,
  Result-cases,
}
use vnst_be.Utils.Retry.{Timer, RetryOptions, remember, last_error, retry_rounds, retry}

-- An Error of JavaScript, and any other value that can be thrown.
abbrev pub IsError : Exception → Type 0
IsError e =
    ((status : ℕ) × (message : Text) × (e ≡ http_exception status message))
    ⊎ ((message : Text) × (e ≡ error message))

abbrev pub IsOther : Exception → Type 0
IsOther e = (value : Text) × (e ≡ other_value value)

-- The last Error of those thrown, in their order, or `undefined` if there is none.
abbrev pub IsLastError : List Exception → Exception → Type 0
IsLastError thrown_values e =
    ((before : List Exception) × (after : List Exception) × (thrown_values ≡ before ++ e ∷ after)
      × IsError e
      × All IsOther after)
    ⊎ (All IsOther thrown_values × (e ≡ other_value (txt "undefined")))

remember_all : List Exception → Option Exception → Option Exception
remember_all [] last = last
remember_all (e ∷ es) last = remember_all es (remember e last)

remember_all-cases :
    (es : List Exception) (last : Option Exception)
    → ((e : Exception) × (remember_all es last ≡ some e)
        × ((before : List Exception) × (after : List Exception) × (es ≡ before ++ e ∷ after)
            × IsError e
            × All IsOther after))
      ⊎ (All IsOther es × (remember_all es last ≡ last))
unfolding remember_all
remember_all-cases [] last = inr (tt, refl)
remember_all-cases (e ∷ es) last = elim (remember_all-cases es (remember e last)) [
  | inl (x, found, (before, after, split, error_x, others)) ↦
      inl (x, found, (e ∷ before, after, ap (◌∷◌ e) split, error_x, others))
  | inr (others, same) ↦ go e others same
]
  where
    go :
        (e : Exception)
        → All IsOther es
        → remember_all es (remember e last) ≡ remember e last
        → ((x : Exception) × (remember_all es (remember e last) ≡ some x)
            × ((before : List Exception) × (after : List Exception) × (e ∷ es ≡ before ++ x ∷ after)
                × IsError x
                × All IsOther after))
          ⊎ (All IsOther (e ∷ es) × (remember_all es (remember e last) ≡ last))
    go (http_exception s m) others same =
        inl (http_exception s m, same, ([], es, refl, inl (s, m, refl), others))
    go (error m) others same = inl (error m, same, ([], es, refl, inr (m, refl), others))
    go (other_value m) others same = inr (((m, refl), others), same)

last_error-IsLastError : (es : List Exception) → IsLastError es (last_error (remember_all es none))
last_error-IsLastError es = elim (remember_all-cases es none) [
  | inl (x, found, rest) ↦ rw found (inl rest)
  | inr (others, same) ↦ rw same (inr (others, refl))
]

module _ {W : Type 0} (timer : Timer W) {A : Type 0} (fn : Io W A) (delay : ℕ) where
  -- Calls in a row that throw these values, each followed by a pause.
  pub data Failures : List Exception → W → W → Type 0 where
    start : {w : W} → Failures [] w w
    again :
        {es : List Exception} {w w' : W} (e : Exception) (v u : W)
        → fn w ≡ thrown e v
        → timer.sleep delay v ≡ ok tt u
        → Failures es u w'
        → Failures (e ∷ es) w w'

  -- How a call of `retry` with `n` rounds ends.
  pub data Ending (n : ℕ) (w : W) (r : Result W A) : Type 0 where
    succeeded :
        (es : List Exception) (u : W) (a : A) (v : W)
        → length es < n
        → Failures es w u
        → fn u ≡ ok a v
        → r ≡ ok a v
        → Ending n w r
    exhausted :
        (es : List Exception) (e : Exception) (u : W)
        → length es ≡ n
        → Failures es w u
        → IsLastError es e
        → r ≡ thrown e u
        → Ending n w r

  retry_rounds-Failures :
      ((v : W) → (u : W) × (timer.sleep delay v ≡ ok tt u))
      → (n : ℕ) (last : Option Exception) (w : W)
      → ((es : List Exception) × (u : W) × (a : A) × (v : W) × (length es < n)
          × Failures es w u
          × (fn u ≡ ok a v)
          × (retry_rounds timer fn delay n last w ≡ ok a v))
        ⊎ ((es : List Exception) × (u : W) × (length es ≡ n)
            × Failures es w u
            × (retry_rounds timer fn delay n last w ≡ thrown (last_error (remember_all es last)) u))
  unfolding retry_rounds remember_all
  retry_rounds-Failures wakes zero last w = inr ([], w, refl, start, refl)
  retry_rounds-Failures wakes (suc n) last w = elim (Result-cases (fn w)) [
    | inl (a, v, p) ↦ inl ([], w, a, v, omega arith, start, p, ground arith)
    | inr (e, v, p) ↦
        let (u, q) = wakes v in
        let rest : retry_rounds timer fn delay (suc n) last w
            ≡ retry_rounds timer fn delay n (remember e last) u =
          rw (p, retry_rounds, q) in
        elim (retry_rounds-Failures wakes n (remember e last) u) [
          | inl (es, u', a, v', lt, fs, s, t) ↦
              inl (e ∷ es, u', a, v', omega arith, again e v u p q fs, s, rw rest t)
          | inr (es, u', all, fs, t) ↦ inr (e ∷ es, u', ap suc all, again e v u p q fs, rw rest t)
        ]
  ]

-- If the pauses do not throw, `retry` ends in one of two ways: after fewer failures than `retries`
-- a call returns a value, and that is the result; or exactly `retries` calls throw, and what is thrown
-- is the last Error among the values they threw, or `undefined` if no Error is among them.
pub retry-Ending :
    {W : Type 0} (timer : Timer W) {A : Type 0} (fn : Io W A) (options : RetryOptions)
    → ((v : W) → (u : W) × (timer.sleep options.delay v ≡ ok tt u))
    → (w : W) → Ending timer fn options.delay options.retries w (retry timer fn options w)
unfolding retry
retry-Ending timer fn options wakes w =
    elim (retry_rounds-Failures timer fn options.delay wakes options.retries none w) [
      | inl (es, u, a, v, lt, fs, s, t) ↦ succeeded es u a v lt fs s t
      | inr (es, u, all, fs, t) ↦
          exhausted es (last_error (remember_all es none)) u all fs (last_error-IsLastError es) t
    ]
