-- ===== src/Utils/CommasLaws.antt =====
-- On `addCommas`, src/utils/helpers.ts.
use vnst_be.Base.{
  ℕ, ◌<◌, ◌≤◌, ◌%◌, ◌++◌, inl, inr, ◌⊎◌, ◌≡◌, ◌≢◌, refl, Bool, true, false, not, [], ◌∷◌, Text,
  ◌==◌, length, filter, All, arith,
}
use vnst_be.Utils.Format.{is_digit, is_word, digit_run, grouped_ahead, commas_from, add_commas}

abbrev pub without_commas : Text → Text
without_commas = filter (λ c. not (c == b','))

abbrev pub IsDigits : Text → Type 0
IsDigits = All (λ c. is_digit c ≡ true)

without_commas-commas_from :
    (word : Bool) (s : Text) → All (λ c. c ≢ b',') s → without_commas (commas_from word s) ≡ s
unfolding commas_from
without_commas-commas_from word [] h = refl
without_commas-commas_from word (c ∷ s) h =
    ground (arith, without_commas-commas_from (is_word c) s h.1)

digit_run-digits : (s : Text) → IsDigits s → digit_run s ≡ length s
unfolding digit_run
digit_run-digits [] h = refl
digit_run-digits (c ∷ s) h = ground (arith, digit_run-digits s h.1)

-- Groups of three, each with a comma before it.
pub data IsGroups : Text → Text → Type 0 where
  done : IsGroups [] []
  group : {s t : Text} (a b c : ℕ) → IsGroups s t → IsGroups (a ∷ b ∷ c ∷ s) (b',' ∷ a ∷ b ∷ c ∷ t)

-- One to three characters and then such groups; or nothing.
pub record IsGrouped (s t : Text) : Type 0 where
  pub head : Text
  pub groups : Text
  pub printed : Text
  pub split : s ≡ head ++ groups
  pub joined : t ≡ head ++ printed
  pub short : length head ≤ 3
  pub begun : 0 < length s → 0 < length head
  pub grouped : IsGroups groups printed

commas_from-plain :
    (c : ℕ) (s : Text)
    → IsDigits (c ∷ s)
    → length (c ∷ s) % 3 ≢ 0
    → commas_from true (c ∷ s) ≡ c ∷ commas_from true s
unfolding commas_from grouped_ahead
commas_from-plain c s h not_three = ground (arith, digit_run-digits (c ∷ s) h)

commas_from-comma :
    (c : ℕ) (s : Text)
    → IsDigits (c ∷ s)
    → length (c ∷ s) % 3 ≡ 0
    → commas_from true (c ∷ s) ≡ b',' ∷ c ∷ commas_from true s
unfolding commas_from grouped_ahead
commas_from-comma c s h three = ground (arith, digit_run-digits (c ∷ s) h)

commas_from-IsGroups : (s : Text) → IsDigits s → length s % 3 ≡ 0 → IsGroups s (commas_from true s)
unfolding commas_from
commas_from-IsGroups [] h three = done
commas_from-IsGroups (a ∷ []) h three = absurd (omega arith)
commas_from-IsGroups (a ∷ b ∷ []) h three = absurd (omega arith)
commas_from-IsGroups (a ∷ b ∷ c ∷ s) h three =
    rw
      (
        commas_from-comma a (b ∷ c ∷ s) h three,
        commas_from-plain b (c ∷ s) h.1 (λ e. absurd (omega arith)),
        commas_from-plain c s h.1.1 (λ e. absurd (omega arith)),
      )
      (group a b c (commas_from-IsGroups s h.1.1.1 (omega arith)))

IsDigits-no_comma : (s : Text) → IsDigits s → All (λ c. c ≢ b',') s
IsDigits-no_comma [] h = tt
IsDigits-no_comma (c ∷ s) h = (ground arith, IsDigits-no_comma s h.1)

is_digit-is_word : (c : ℕ) → is_digit c ≡ true → is_word c ≡ true
is_digit-is_word c h = ground arith

with_head :
    (head s t : Text)
    → length head ≤ 3
    → 0 < length head
    → IsGroups s t
    → IsGrouped (head ++ s) (head ++ t)
with_head head s t short begun gs = record {
  head = head;
  groups = s;
  printed = t;
  split = refl;
  joined = refl;
  short = short;
  begun = λ p. begun;
  grouped = gs;
}

mod_three : (n : ℕ) → (n % 3 ≡ 0) ⊎ ((n % 3 ≡ 1) ⊎ (n % 3 ≡ 2))
mod_three n = omega arith

after_first : (a : ℕ) (s : Text) → IsDigits s → IsGrouped (a ∷ s) (a ∷ commas_from true s)
unfolding commas_from
after_first a [] h = with_head (a ∷ []) [] [] (omega arith) (omega arith) done
after_first a (b ∷ []) h =
    rw (commas_from-plain b [] h (λ z. absurd (omega arith)))
      (with_head (a ∷ b ∷ []) [] [] (omega arith) (omega arith) done)
after_first a (b ∷ c ∷ s) h = elim (mod_three (length s)) [
  | inl e ↦
      rw
        (
          commas_from-plain b (c ∷ s) h (λ z. absurd (omega arith)),
          commas_from-plain c s h.1 (λ z. absurd (omega arith)),
        )
        (with_head (a ∷ b ∷ c ∷ []) s _ (omega arith) (omega arith)
          (commas_from-IsGroups s h.1.1 e))
  | inr (inl e) ↦
      with_head (a ∷ []) (b ∷ c ∷ s) _ (omega arith) (omega arith)
        (commas_from-IsGroups (b ∷ c ∷ s) h (omega arith))
  | inr (inr e) ↦ rw (commas_from-plain b (c ∷ s) h (λ z. absurd (omega arith))) (
      with_head (a ∷ b ∷ []) (c ∷ s) _ (omega arith) (omega arith)
        (commas_from-IsGroups (c ∷ s) h.1 (omega arith)))
]

add_commas-IsGrouped : (s : Text) → IsDigits s → IsGrouped s (add_commas s)
unfolding add_commas commas_from
add_commas-IsGrouped s h = go s h
  where
    go : (s : Text) → IsDigits s → IsGrouped s (commas_from false s)
    go [] h = record {
      head = [];
      groups = [];
      printed = [];
      split = refl;
      joined = refl;
      short = omega arith;
      begun = λ p. p;
      grouped = done;
    }
    go (a ∷ s) h =
        let first : commas_from false (a ∷ s) ≡ a ∷ commas_from true s =
          rw (is_digit-is_word a h.0) refl in
        rw first (after_first a s h.1)

-- For a text of digits, dropping the commas of the result gives the text back, and the commas stand
-- before each group of three digits, counted from the end, that is not at the front: the result is
-- one to three digits and then groups of a comma and three digits, or empty.
pub without_commas-add_commas :
    (s : Text) → IsDigits s → (without_commas (add_commas s) ≡ s) × IsGrouped s (add_commas s)
unfolding add_commas
without_commas-add_commas s h =
    (without_commas-commas_from false s (IsDigits-no_comma s h), add_commas-IsGrouped s h)
