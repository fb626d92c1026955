-- ===== src/Utils/Retry.antt =====
-- src/utils/helpers.ts: `retry`.
use vnst_be.Base.{
  ℕ, zero, suc, Bool, true, false, Option, none, some, txt, Exception, http_exception, error,
  other_value, Io, ok, thrown, bind, throw,
}

-- `setTimeout` and `Date.now()`: the clock and its timers.
pub record Timer (W : Type 0) : Type 0 where
  pub sleep : ℕ → Io W (Unit {0})
  pub now : Io W ℕ

-- `e instanceof Error` (an HttpException is one).
abbrev pub is_error : Exception → Bool
is_error (http_exception s m) = true
is_error (error m) = true
is_error (other_value m) = false

-- `if (e instanceof Error) lastError = e`.
abbrev pub remember : Exception → Option Exception → Option Exception
remember (http_exception s m) last = some (http_exception s m)
remember (error m) last = some (error m)
remember (other_value m) last = last

-- `throw lastError`, which may still be `undefined`.
abbrev pub last_error : Option Exception → Exception
last_error none = other_value (txt "undefined")
last_error (some e) = e

pub record RetryOptions : Type 0 where
  pub retries : ℕ
  pub delay : ℕ

module _ {W : Type 0} (timer : Timer W) {A : Type 0} (fn : Io W A) where
  -- The loop, by the rounds left.
  unfoldable pub retry_rounds : ℕ → ℕ → Option Exception → Io W A
  retry_rounds delay zero last w = throw (last_error last) w
  retry_rounds delay (suc n) last w = elim (fn w) [
    | ok a v ↦ ok a v
    | thrown e v ↦ bind (timer.sleep delay v) (λ _. retry_rounds delay n (remember e last))
  ]

  unfoldable pub retry : RetryOptions → Io W A
  unfolding retry_rounds
  retry options = retry_rounds options.delay options.retries none
