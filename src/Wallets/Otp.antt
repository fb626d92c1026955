-- ===== src/Wallets/Otp.antt =====
-- src/modules/wallets/wallets.service.ts: `generateOtp` and `validateOtp`. Times are milliseconds.
use vnst_be.Base.{
  ℕ, zero, suc, ◌+◌, Bool, true, false, ◌&&◌, Option, none, some, [], ◌∷◌, ◌++◌, Text, txt, leb,
  option_text_eq, option_truthy, get_elem?, Io, pure, ◌>>=◌,
}
use vnst_be.Schema.Wallet.{Wallet}
use vnst_be.External.Infra.{Outside}

abbrev pub digits : Text
digits = txt "0123456789"

-- `digits[i]`, one unit; an index past the end would print `undefined`.
abbrev pub digit_at : Option ℕ → Text
digit_at none = txt "undefined"
digit_at (some c) = c ∷ []

module _ {W : Type 0} (o : Outside W) where
  -- The loop of `generateOtp`, by the rounds left.
  unfoldable pub otp_rounds : ℕ → Text → Io W Text
  otp_rounds zero otp = pure otp
  otp_rounds (suc n) otp = do
    i ← o.random.digit
    otp_rounds n (otp ++ digit_at (get_elem? digits i))

  unfoldable pub generate_otp : ℕ → Io W Text
  generate_otp limit = otp_rounds limit []

-- 5 * 60 * 1000
abbrev pub otp_lifetime : ℕ
otp_lifetime = 300000

-- `!!time`, for a time that may be `undefined`.
abbrev pub time_truthy : Option ℕ → Bool
time_truthy none = false
time_truthy (some zero) = false
time_truthy (some (suc t)) = true

-- `currentTime - time <= 5 * 60 * 1000`; a comparison with NaN is false.
abbrev pub is_recent : ℕ → Option ℕ → Bool
is_recent now none = false
is_recent now (some t) = leb now (t + otp_lifetime)

-- `validateOtp`, at the time `now`.
unfoldable pub validate_otp_at : ℕ → Wallet → Text → Bool
validate_otp_at now wallet otp =
    option_truthy wallet.otp
    && time_truthy wallet.otp_created_time
    && option_text_eq (some otp) wallet.otp
    && is_recent now wallet.otp_created_time
