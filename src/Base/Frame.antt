-- ===== src/Base/Frame.antt =====
-- Operations that leave a part of the state alone, whichever way they end.
use mathlib.Core.Path.{◌≡◌, refl, ◌∙◌}
use mathlib.Core.Logic.{inl, inr}
use mathlib.Core.Bool.{Bool, true, false}
use mathlib.Core.List.{List, [], ◌∷◌}
use vnst_be.Base.Effect.{Io, pure, ◌>>=◌, try_catch, when, end_of, for_each, Result-cases}

module _ {W S : Type 0} (view : W → S) where
  -- What `view` shows is the same after the operation.
  abbrev pub Leaves : {A : Type 0} → Io W A → Type 0
  Leaves m = (w : W) → view (end_of (m w)) ≡ view w

  pub pure-Leaves : {A : Type 0} (a : A) → Leaves (pure a)
  pure-Leaves a w = refl

  -- The rest of a bind leaves alone what its first part did.
  pub end_of-bind :
      {A B : Type 0} (m : Io W A) (f : A → Io W B) (w : W)
      → ((a : A) → Leaves (f a))
      → view (end_of ((m >>= f) w)) ≡ view (end_of (m w))
  end_of-bind m f w hf = elim (Result-cases (m w)) [
    | inl (a, v, e) ↦ rw e (hf a v)
    | inr (x, v, e) ↦ rw e refl
  ]

  -- A handler that does nothing.
  pub end_of-catch :
      {A : Type 0} (m : Io W A) (a : A) (w : W)
      → view (end_of (try_catch m (λ e. pure a) w)) ≡ view (end_of (m w))
  end_of-catch m a w = elim (Result-cases (m w)) [
    | inl (b, v, e) ↦ rw e refl
    | inr (x, v, e) ↦ rw e refl
  ]

  pub bind-Leaves :
      {A B : Type 0} (m : Io W A) (f : A → Io W B)
      → Leaves m
      → ((a : A) → Leaves (f a))
      → Leaves (m >>= f)
  bind-Leaves m f hm hf w = end_of-bind m f w hf ∙ hm w

  pub catch-Leaves :
      {A : Type 0} (m : Io W A) (a : A) → Leaves m → Leaves (try_catch m (λ e. pure a))
  catch-Leaves m a hm w = end_of-catch m a w ∙ hm w

  pub when-Leaves : (test : Bool) (m : Io W (Unit {0})) → Leaves m → Leaves (when test m)
  when-Leaves true m h = h
  when-Leaves false m h = λ w. refl

  pub for_each-Leaves :
      {A : Type 0} (xs : List A) (f : A → Io W (Unit {0}))
      → ((a : A) → Leaves (f a))
      → Leaves (for_each xs f)
  unfolding for_each
  for_each-Leaves [] f h = λ w. refl
  for_each-Leaves (x ∷ xs) f h =
      bind-Leaves (f x) (λ _. for_each xs f) (h x) (λ _. for_each-Leaves xs f h)
