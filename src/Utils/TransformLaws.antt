-- ===== src/Utils/TransformLaws.antt =====
-- On lower case and trimming: src/pipe/transform.pipe.ts and the setters of src/schema/wallet.schema.ts.
use mathlib.Core.List.{reverse, reverse-cons, reverse-reverse, reverse-append}
use vnst_be.Base.{
  ℕ, ◌≡◌, refl, sym, ap, ◌∙◌, inl, inr, false, Option, none, some, [], ◌∷◌, ◌++◌, Text, arith,
  Bool-cases, is_space, lower_unit, to_lower_case, to_lower_case_idem, trim_start, trim,
}
use vnst_be.Utils.Transform.{lower_case_and_trim_string}
use vnst_be.Schema.Wallet.{email_setter}

is_space-lower_unit : (c : ℕ) → is_space (lower_unit c) ≡ is_space c
unfolding is_space lower_unit
is_space-lower_unit c = ground arith

trim_start-lower : (s : Text) → trim_start (to_lower_case s) ≡ to_lower_case (trim_start s)
unfolding trim_start to_lower_case
trim_start-lower [] = refl
trim_start-lower (c ∷ s) = ground (arith, is_space-lower_unit c, trim_start-lower s)

lower-append : (s t : Text) → to_lower_case (s ++ t) ≡ to_lower_case s ++ to_lower_case t
unfolding to_lower_case
lower-append [] t = refl
lower-append (c ∷ s) t = ap (◌∷◌ (lower_unit c)) (lower-append s t)

reverse-lower : (s : Text) → reverse (to_lower_case s) ≡ to_lower_case (reverse s)
unfolding to_lower_case
reverse-lower [] = refl
reverse-lower (c ∷ s) =
    reverse-cons (lower_unit c) (to_lower_case s)
    ∙ ap (λ t. t ++ lower_unit c ∷ []) (reverse-lower s)
    ∙ sym (lower-append (reverse s) (c ∷ []))
    ∙ ap to_lower_case (sym (reverse-cons c s))

trim-lower : (s : Text) → trim (to_lower_case s) ≡ to_lower_case (trim s)
unfolding trim
trim-lower s = rw (
  trim_start-lower s,
  reverse-lower (trim_start s),
  trim_start-lower (reverse (trim_start s)),
  reverse-lower (trim_start (reverse (trim_start s))),
)

-- The first unit is no white space.
abbrev Starts : Text → Type 0
Starts [] = Unit {0}
Starts (c ∷ s) = is_space c ≡ false

trim_start-Starts : (s : Text) → Starts (trim_start s)
unfolding trim_start
trim_start-Starts [] = tt
trim_start-Starts (c ∷ s) = elim (Bool-cases (is_space c)) [
  | inl e ↦ rw e (trim_start-Starts s)
  | inr e ↦ rw e e
]

trim_start-fixed : (s : Text) → Starts s → trim_start s ≡ s
unfolding trim_start
trim_start-fixed [] h = refl
trim_start-fixed (c ∷ s) h = rw h

trim_start-snoc :
    (s : Text) (c : ℕ) → is_space c ≡ false → trim_start (s ++ c ∷ []) ≡ trim_start s ++ c ∷ []
unfolding trim_start
trim_start-snoc [] c h = rw h
trim_start-snoc (b ∷ s) c h = ground (arith, trim_start-snoc s c h)

trim_end-Starts : (s : Text) → Starts s → Starts (reverse (trim_start (reverse s)))
unfolding trim_start
trim_end-Starts [] h = tt
trim_end-Starts (c ∷ s) h =
    rw
      (
        reverse-cons c s,
        trim_start-snoc (reverse s) c h,
        reverse-append (trim_start (reverse s)) (c ∷ []),
      )
      h

trim_idem : (s : Text) → trim (trim s) ≡ trim s
unfolding trim
trim_idem s =
    let t = trim_start s in
    let start = trim_end-Starts t (trim_start-Starts s) in
    rw (
      trim_start-fixed _ start,
      reverse-reverse (trim_start (reverse t)),
      trim_start-fixed _ (trim_start-Starts (reverse t)),
    )

-- An address or a mail address that a query or a body brings in is stored by the schema's setter
-- as it is: lower case and trimming have been done once and for all.
pub email_setter-lower_case_and_trim_string :
    (raw : Option Text)
    → email_setter (lower_case_and_trim_string raw) ≡ lower_case_and_trim_string raw
unfolding email_setter lower_case_and_trim_string
email_setter-lower_case_and_trim_string none = refl
email_setter-lower_case_and_trim_string (some s) =
    ap some (rw (trim_idem (to_lower_case s), trim-lower s) (to_lower_case_idem (trim s)))
