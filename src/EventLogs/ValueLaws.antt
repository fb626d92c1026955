-- ===== src/EventLogs/ValueLaws.antt =====
-- On `toObject`, src/modules/event-logs/event-logs.service.ts.
use vnst_be.Base.{
  ◌≡◌, refl, ap, inl, inr, Bool, true, List, [], ◌∷◌, map, Text, All, to_lower_case,
  to_lower_case_idem, decimal, Bool-cases, arith, lower_unit,
}
use vnst_be.Schema.EventLog.{
  FieldValue, text, bigint, bool, js_number, null, array, FieldValues, no_values, with_value,
}
use vnst_be.Utils.CommasLaws.{IsDigits}
use vnst_be.Utils.DecimalLaws.{decimal-IsDigits}
use vnst_be.EventLogs.Parse.{replace_value, replace_values, to_object}

-- A value that JSON can hold: every big integer has become a text, in arrays too.
mutual
  pub IsJson : FieldValue → Type 0
  IsJson (text t) = Unit {0}
  IsJson (bigint n) = ⊥
  IsJson (bool b) = Unit {0}
  IsJson (js_number n) = Unit {0}
  IsJson null = Unit {0}
  IsJson (array vs) = AllJson vs

  pub AllJson : FieldValues → Type 0
  AllJson no_values = Unit {0}
  AllJson (with_value v vs) = IsJson v × AllJson vs

to_lower_case-digits : (s : Text) → IsDigits s → to_lower_case s ≡ s
unfolding to_lower_case lower_unit
to_lower_case-digits [] h = refl
to_lower_case-digits (c ∷ s) h =
    let e : lower_unit c ≡ c = ground (arith, h.0) in cc (e, to_lower_case-digits s h.1)

module _ (is_ethereum_address : Text → Bool) where
  -- An address is in lower case, in arrays too.
  mutual
    pub IsLowered : FieldValue → Type 0
    IsLowered (text t) = is_ethereum_address t ≡ true → to_lower_case t ≡ t
    IsLowered (bigint n) = Unit {0}
    IsLowered (bool b) = Unit {0}
    IsLowered (js_number n) = Unit {0}
    IsLowered null = Unit {0}
    IsLowered (array vs) = AllLowered vs

    pub AllLowered : FieldValues → Type 0
    AllLowered no_values = Unit {0}
    AllLowered (with_value v vs) = IsLowered v × AllLowered vs

  mutual
    unfolding replace_value replace_values IsJson AllJson

    replace_value-IsJson : (v : FieldValue) → IsJson (replace_value is_ethereum_address v)
    replace_value-IsJson (bigint n) = tt
    replace_value-IsJson (bool b) = tt
    replace_value-IsJson (js_number n) = tt
    replace_value-IsJson null = tt
    replace_value-IsJson (array vs) = replace_values-AllJson vs
    replace_value-IsJson (text t) = elim (Bool-cases (is_ethereum_address t)) [
      | inl e ↦ rw e tt
      | inr e ↦ rw e tt
    ]

    replace_values-AllJson : (vs : FieldValues) → AllJson (replace_values is_ethereum_address vs)
    replace_values-AllJson no_values = tt
    replace_values-AllJson (with_value v vs) = (replace_value-IsJson v, replace_values-AllJson vs)

  mutual
    unfolding replace_value replace_values IsLowered AllLowered

    replace_value-IsLowered : (v : FieldValue) → IsLowered (replace_value is_ethereum_address v)
    replace_value-IsLowered (bigint n) = λ e. to_lower_case-digits (decimal n) (decimal-IsDigits n)
    replace_value-IsLowered (bool b) = tt
    replace_value-IsLowered (js_number n) = tt
    replace_value-IsLowered null = tt
    replace_value-IsLowered (array vs) = replace_values-AllLowered vs
    replace_value-IsLowered (text t) = elim (Bool-cases (is_ethereum_address t)) [
      | inl e ↦ rw e (λ _. to_lower_case_idem t)
      | inr e ↦ rw e (λ h. absurd (ground (arith, e, h)))
    ]

    replace_values-AllLowered :
        (vs : FieldValues) → AllLowered (replace_values is_ethereum_address vs)
    replace_values-AllLowered no_values = tt
    replace_values-AllLowered (with_value v vs) =
        (replace_value-IsLowered v, replace_values-AllLowered vs)

  -- The stored arguments of an event have the names of the event's, in their order; each value is
  -- one that JSON can hold: it is and holds no big integer, and a text in it that is an address is in
  -- lower case.
  pub to_object-IsJson :
      (fields : List (Text × FieldValue))
      → (map (λ f. f.0) (to_object is_ethereum_address fields) ≡ map (λ f. f.0) fields)
        × All (λ f. IsJson f.1 × IsLowered f.1) (to_object is_ethereum_address fields)
  unfolding to_object
  to_object-IsJson [] = (refl, tt)
  to_object-IsJson ((k, v) ∷ fields) =
      let (names, values) = to_object-IsJson fields in
      (ap (◌∷◌ k) names, ((replace_value-IsJson v, replace_value-IsLowered v), values))
