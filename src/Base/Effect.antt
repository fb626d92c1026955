-- ===== src/Base/Effect.antt =====
-- Effects: an operation reads and changes the state `W` of everything outside the program (the
-- database, the queue, the cache, the mailer, the chain nodes, the clock). It ends with a value or
-- with an exception, and what was done before an exception stays done.
use Prim.Native.Nat.{ℕ}
use mathlib.Core.Path.{◌≡◌, refl, sym, ◌∙◌}
use mathlib.Core.Logic.{◌⊎◌, inl, inr}
use mathlib.Core.Bool.{Bool, true, false}
use mathlib.Core.List.{List, [], ◌∷◌, ◌++◌}
use vnst_be.Base.Texts.{Text}

-- What the program throws: an HttpException with its status, another Error, or a value that is no
-- Error.
pub data Exception : Type 0 where
  http_exception : ℕ → Text → Exception
  error : Text → Exception
  other_value : Text → Exception

pub data Result (W A : Type 0) : Type 0 where
  ok : A → W → Result W A
  thrown : Exception → W → Result W A

abbrev pub Io : Type 0 → Type 0 → Type 0
Io W A = W → Result W A

module _ {W : Type 0} where
  abbrev pub pure : {A : Type 0} → A → Io W A
  pure a w = ok a w

  abbrev pub throw : {A : Type 0} → Exception → Io W A
  throw e w = thrown e w

  abbrev pub bind : {A B : Type 0} → Result W A → (A → Io W B) → Result W B
  bind (ok a w) f = f a w
  bind (thrown e w) f = thrown e w

  infixl 5 ◌>>=◌ ◌>>◌
  abbrev pub ◌>>=◌ : {A B : Type 0} → Io W A → (A → Io W B) → Io W B
  ◌>>=◌ m f w = bind (m w) f

  abbrev pub ◌>>◌ : {A B : Type 0} → Io W A → Io W B → Io W B
  ◌>>◌ m k w = bind (m w) (λ _. k)

  abbrev pub recover : {A : Type 0} → Result W A → (Exception → Io W A) → Result W A
  recover (ok a w) h = ok a w
  recover (thrown e w) h = h e w

  -- `try { m } catch (e) { h e }`.
  abbrev pub try_catch : {A : Type 0} → Io W A → (Exception → Io W A) → Io W A
  try_catch m h w = recover (m w) h

  -- A promise that is not awaited: its failure reaches nobody.
  abbrev pub detach : Io W (Unit {0}) → Io W (Unit {0})
  detach m = try_catch m (λ e. pure tt)

  abbrev pub when : Bool → Io W (Unit {0}) → Io W (Unit {0})
  when true m = m
  when false m = pure tt

  -- The state in which an operation ends, with a value or an exception.
  abbrev pub end_of : {A : Type 0} → Result W A → W
  end_of (ok a w) = w
  end_of (thrown e w) = w

  -- `for (const x of xs) await f(x)`.
  unfoldable pub for_each : {A : Type 0} → List A → (A → Io W (Unit {0})) → Io W (Unit {0})
  for_each [] f = pure tt
  for_each (x ∷ xs) f = f x >> for_each xs f

  pub Result-cases :
      {A : Type 0} (r : Result W A)
      → ((a : A) × (w : W) × (r ≡ ok a w)) ⊎ ((e : Exception) × (w : W) × (r ≡ thrown e w))
  Result-cases (ok a w) = inl (a, w, refl)
  Result-cases (thrown e w) = inr (e, w, refl)

  -- A result ends in one state.
  pub ok-injective :
      {A : Type 0} (r : Result W A) {a b : A} {u v : W} → r ≡ ok a u → r ≡ ok b v → u ≡ v
  ok-injective r {a} {b} {u} {v} e f = let same : ok a u ≡ ok b v = sym e ∙ f in cc

  -- A bind that succeeds: its first part did, and so did the rest.
  pub bind-eq-ok :
      {A B : Type 0} (r : Result W A) (f : A → Io W B) {b : B} {w : W}
      → bind r f ≡ ok b w
      → (a : A) × (v : W) × (r ≡ ok a v) × (f a v ≡ ok b w)
  bind-eq-ok (ok a v) f h = (a, v, refl, h)
  bind-eq-ok (thrown e v) f h = cc

  -- A pass over two lists, one after the other.
  pub for_each-append :
      {A : Type 0} (xs ys : List A) (f : A → Io W (Unit {0})) (w : W)
      → for_each (xs ++ ys) f w ≡ bind (for_each xs f w) (λ _. for_each ys f)
  unfolding for_each
  for_each-append [] ys f w = refl
  for_each-append (x ∷ xs) ys f w = elim (Result-cases (f x w)) [
    | inl (a, v, p) ↦ rw (p, for_each) (for_each-append xs ys f v)
    | inr (e, v, p) ↦ rw (p, for_each)
  ]
