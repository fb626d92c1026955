-- ===== src/EventLogs/ParseLaws.antt =====
-- On `[...new Set(xs)]` in `scanEventLog`, src/modules/event-logs/event-logs.service.ts.
use mathlib.Core.List.{Memᴰ}
use mathlib.Core.List.Memᴰ
use vnst_be.Base.{
  ◌≡◌, refl, sym, subst, ◌↔◌, inl, inr, true, false, Option, none, some, ap, text_eq_iff,
  text_eq_refl, List, [], ◌∷◌, Text, option_text_eq, Bool-cases, arith,
}
use vnst_be.EventLogs.Parse.{includes, unique_from, unique}

-- No value of the list comes again behind itself.
abbrev pub NoRepeat : List (Option Text) → Type 0
NoRepeat [] = Unit {0}
NoRepeat (x ∷ xs) = ¬ Memᴰ x xs × NoRepeat xs

unique_from-seen :
    (x : Option Text) (seen xs : List (Option Text))
    → includes x seen ≡ true
    → unique_from seen (x ∷ xs) ≡ unique_from seen xs
unfolding unique_from
unique_from-seen x seen xs h = rw h

unique_from-new :
    (x : Option Text) (seen xs : List (Option Text))
    → includes x seen ≡ false
    → unique_from seen (x ∷ xs) ≡ x ∷ unique_from (x ∷ seen) xs
unfolding unique_from
unique_from-new x seen xs h = rw h

includes-tail :
    (a x : Option Text) (seen : List (Option Text))
    → includes a (x ∷ seen) ≡ false
    → (option_text_eq x a ≡ false) × (includes a seen ≡ false)
unfolding includes
includes-tail a x seen h = elim (Bool-cases (option_text_eq x a)) [
  | inl e ↦ absurd (ground (arith, e, h))
  | inr e ↦ (e, ground (arith, e, h))
]

includes-cons :
    (a x : Option Text) (seen : List (Option Text))
    → option_text_eq x a ≡ false
    → includes a seen ≡ false
    → includes a (x ∷ seen) ≡ false
unfolding includes
includes-cons a x seen e h = ground (arith, e, h)

includes_nil : (a : Option Text) → includes a [] ≡ false
unfolding includes
includes_nil a = refl

option_text_eq-eq : (x a : Option Text) → option_text_eq x a ≡ true → x ≡ a
option_text_eq-eq none none h = refl
option_text_eq-eq (some s) (some t) h = ap some ((text_eq_iff s t).0 h)
option_text_eq-eq none (some t) h = absurd (ground (arith, h))
option_text_eq-eq (some s) none h = absurd (ground (arith, h))

includes_self : (x : Option Text) (seen : List (Option Text)) → ¬ (includes x (x ∷ seen) ≡ false)
includes_self none seen h = absurd (ground (arith, includes-tail none none seen h))
includes_self (some t) seen h =
    let (differs, new) = includes-tail (some t) (some t) seen h in
    absurd (ground (arith, differs, text_eq_refl t))

-- What is kept is new and comes from the list.
unique_from-mem :
    (a : Option Text) (seen xs : List (Option Text))
    → Memᴰ a (unique_from seen xs)
    → (includes a seen ≡ false) × Memᴰ a xs
unfolding unique_from
unique_from-mem a seen [] m = absurd (Memᴰ.not-nil m)
unique_from-mem a seen (x ∷ xs) m = elim (Bool-cases (includes x seen)) [
  | inl old ↦
      let (new, here) =
        unique_from-mem a seen xs (subst (λ l. Memᴰ a l) (unique_from-seen x seen xs old) m) in
      (new, Memᴰ.tail here)
  | inr fresh ↦ elim (Memᴰ.cases_cons (subst (λ l. Memᴰ a l) (unique_from-new x seen xs fresh) m)) [
    | inl e ↦ (subst (λ y. includes y seen ≡ false) (sym e) fresh, Memᴰ.head e)
    | inr later ↦
        let (new, here) = unique_from-mem a (x ∷ seen) xs later in
        ((includes-tail a x seen new).1, Memᴰ.tail here)
  ]
]

mem-unique_from :
    (a : Option Text) (seen xs : List (Option Text))
    → includes a seen ≡ false
    → Memᴰ a xs
    → Memᴰ a (unique_from seen xs)
mem-unique_from a seen [] new m = absurd (Memᴰ.not-nil m)
mem-unique_from a seen (x ∷ xs) new m = elim (Bool-cases (includes x seen)) [
  | inl old ↦
      subst (λ l. Memᴰ a l) (sym (unique_from-seen x seen xs old))
        (elim (Memᴰ.cases_cons m) [
          | inl e ↦ absurd (cc (old, new, e))
          | inr later ↦ mem-unique_from a seen xs new later
        ])
  | inr fresh ↦
      subst (λ l. Memᴰ a l) (sym (unique_from-new x seen xs fresh))
        (elim (Bool-cases (option_text_eq x a)) [
          | inl e ↦ Memᴰ.head (sym (option_text_eq-eq x a e))
          | inr differs ↦ elim (Memᴰ.cases_cons m) [
            | inl e ↦ Memᴰ.head e
            | inr later ↦
                Memᴰ.tail
                  (mem-unique_from a (x ∷ seen) xs (includes-cons a x seen differs new) later)
          ]
        ])
]

unique_from-NoRepeat : (seen xs : List (Option Text)) → NoRepeat (unique_from seen xs)
unfolding unique_from
unique_from-NoRepeat seen [] = tt
unique_from-NoRepeat seen (x ∷ xs) = elim (Bool-cases (includes x seen)) [
  | inl old ↦ subst NoRepeat (sym (unique_from-seen x seen xs old)) (unique_from-NoRepeat seen xs)
  | inr fresh ↦ subst NoRepeat (sym (unique_from-new x seen xs fresh)) (
    λ m. absurd (includes_self x seen (unique_from-mem x (x ∷ seen) xs m).0),
    unique_from-NoRepeat (x ∷ seen) xs,
  )
]

-- The addresses that the scan queues for an update of their balance are the addresses that were
-- collected, each of them once.
pub unique-NoRepeat :
    (xs : List (Option Text))
    → NoRepeat (unique xs) × ((a : Option Text) → Memᴰ a (unique xs) ↔ Memᴰ a xs)
unfolding unique
unique-NoRepeat xs = (
  unique_from-NoRepeat [] xs,
  λ a. (λ m. (unique_from-mem a [] xs m).1, λ m. mem-unique_from a [] xs (includes_nil a) m),
)
