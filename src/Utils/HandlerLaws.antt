-- ===== src/Utils/HandlerLaws.antt =====
-- On `getDateMonthYear` and `randomNonce`, src/helper/handler.ts.
use vnst_be.Base.{
  ℕ, zero, suc, ◌+◌, ◌-◌, ◌/◌, ◌%◌, ◌==◌, ◌&&◌, length-drop, ◌≤◌, ◌<◌, ◌≡◌, ◌≢◌, ◌↔◌, ap, ◌∙◌, inl,
  inr, false, [], ◌∷◌, ◌++◌, Text, txt, decimal, digits_before, digits_before-small,
  digits_before-large, length, length-append, ltb, lt→ltb, Bool-cases, if◌then◌else◌, arith,
}
use vnst_be.Utils.Format.{slice_last}
use vnst_be.Utils.Handler.{CalendarDate, date_text, month_text, get_date_month_year}

length-decimal_one : (n : ℕ) → n < 10 → length (decimal n) ≡ 1
unfolding decimal
length-decimal_one n h = ap length (digits_before-small n n [] (lt→ltb n 10 h))

length-decimal_two : (n : ℕ) → 10 ≤ n → n < 100 → length (decimal n) ≡ 2
unfolding decimal
length-decimal_two zero lo hi = absurd (omega arith)
length-decimal_two (suc n) lo hi =
    let large : ltb (suc n) 10 ≡ false = ground arith in
    let small : n / 10 < 10 = omega arith in
    ap length (digits_before-large (suc n) (suc n) [] large)
    ∙ ap length (
        digits_before-small n (suc n / 10) ((48 + suc n % 10) ∷ [])
          (lt→ltb (suc n / 10) 10 (omega arith)))

-- Two characters, or three at 10.
length-date_text :
    (date : ℕ) → 0 < date → date < 32 → length (date_text date) ≡ (if date == 10 then 3 else 2)
unfolding date_text
length-date_text date pos hi = elim (Bool-cases (ltb date 10)) [
  | inl small ↦ ground (arith, length-decimal_one date, length-append (txt "0") (decimal date))
  | inr large ↦ ground (arith, length-decimal_two date, length-append (txt "0") (decimal date))
]

length-month_text :
    (month : ℕ)
    → month < 12
    → length (month_text month) ≡ (if ltb 8 month && ltb month 11 then 3 else 2)
unfolding month_text
length-month_text month hi = elim (Bool-cases (ltb month 9)) [
  | inl small ↦
      ground (arith, length-decimal_one (month + 1), length-append (txt "0") (decimal (month + 1)))
  | inr large ↦
      ground (arith, length-decimal_two (month + 1), length-append (txt "0") (decimal (month + 1)))
]

length-digits_before :
    (rounds n : ℕ) (rest : Text) → length rest ≤ length (digits_before rounds n rest)
unfolding digits_before
length-digits_before zero n rest = omega arith
length-digits_before (suc rounds) n rest = elim (Bool-cases (ltb n 10)) [
  | inl small ↦ omega (arith, ap length (digits_before-small rounds n rest small))
  | inr large ↦ omega (
    arith,
    ap length (digits_before-large rounds n rest large),
    length-digits_before rounds (n / 10) ((48 + n % 10) ∷ rest),
  )
]

length-decimal_many : (n : ℕ) → 10 ≤ n → 2 ≤ length (decimal n)
unfolding decimal
length-decimal_many zero h = absurd (omega arith)
length-decimal_many (suc n) h =
    let large : ltb (suc n) 10 ≡ false = ground arith in
    let c = 48 + suc n % 10 in
    omega (arith, ap length (digits_before-large (suc n) (suc n) [] large), more (suc n / 10) c)
  where
    more : (q c : ℕ) → 2 ≤ length (digits_before (suc n) q (c ∷ []))
    more q c = elim (Bool-cases (ltb q 10)) [
      | inl small ↦ omega (arith, ap length (digits_before-small n q (c ∷ []) small))
      | inr large ↦ omega (
        arith,
        ap length (digits_before-large n q (c ∷ []) large),
        length-digits_before n (q / 10) ((48 + q % 10) ∷ c ∷ []),
      )
    ]

-- For a date of the calendar in a year from 10 on, the text has its six characters exactly when the
-- day is not the 10th and the month is neither October nor November (9 and 10, counted from 0).
pub length-get_date_month_year :
    (d : CalendarDate)
    → 0 < d.date
    → d.date < 32
    → d.month < 12
    → 10 ≤ d.year
    → (length (get_date_month_year d) ≡ 6) ↔ ((d.date ≢ 10) × (d.month ≢ 9) × (d.month ≢ 10))
unfolding get_date_month_year
length-get_date_month_year d pos hi month year =
    let whole : length (get_date_month_year d)
        ≡ 2 + (if d.date == 10 then 3 else 2) + (if ltb 8 d.month && ltb d.month 11 then 3 else 2) =
      omega (
        arith,
        length-append (slice_last 2 (decimal d.year)) (date_text d.date ++ month_text d.month),
        length-append (date_text d.date) (month_text d.month),
        length-drop (length (decimal d.year) - 2) (decimal d.year),
        length-decimal_many d.year year,
        length-date_text d.date pos hi,
        length-month_text d.month month,
      ) in
    (
      λ six. (ground (arith, six, whole), ground (arith, six, whole), ground (arith, six, whole)),
      λ usual. ground (arith, whole, usual),
    )
