-- ===== src/Wallets/OtpLaws.antt =====
-- One-time passwords: what is generated, and what is accepted.
use vnst_be.Base.{
  ap, sym, option_truthy, option_text_eq, ◌&&◌, ℕ, zero, suc, ◌+◌, ◌≤◌, ◌<◌, ◌≡◌, ◌≢◌, refl, ◌↔◌,
  Bool, true, Option, none, some, [], ◌∷◌, ◌++◌, Text, text_eq_iff, get_elem?, length,
  length-append, All-append, ok, arith,
}
use vnst_be.Schema.Wallet.{Wallet}
use vnst_be.External.Infra.{Outside}
use vnst_be.Utils.Format.{is_digit}
use vnst_be.Utils.CommasLaws.{IsDigits}
use vnst_be.Wallets.Otp.{
  digits, digit_at, otp_rounds, generate_otp, otp_lifetime, validate_otp_at, time_truthy, is_recent,
}

-- `Math.floor(Math.random() * 10)` is a digit, and never throws.
abbrev pub DrawsDigits : {W : Type 0} → Outside W → Type 0
DrawsDigits {W} o = (w : W) → (d : ℕ) × (v : W) × (o.random.digit w ≡ ok d v) × (d < 10)

digit_at-digits :
    (d : ℕ)
    → d < 10
    → (length (digit_at (get_elem? digits d)) ≡ 1) × IsDigits (digit_at (get_elem? digits d))
digit_at-digits zero h = (refl, (refl, tt))
digit_at-digits (suc zero) h = (refl, (refl, tt))
digit_at-digits (suc (suc zero)) h = (refl, (refl, tt))
digit_at-digits (suc (suc (suc zero))) h = (refl, (refl, tt))
digit_at-digits (suc (suc (suc (suc zero)))) h = (refl, (refl, tt))
digit_at-digits (suc (suc (suc (suc (suc zero))))) h = (refl, (refl, tt))
digit_at-digits (suc (suc (suc (suc (suc (suc zero)))))) h = (refl, (refl, tt))
digit_at-digits (suc (suc (suc (suc (suc (suc (suc zero))))))) h = (refl, (refl, tt))
digit_at-digits (suc (suc (suc (suc (suc (suc (suc (suc zero)))))))) h = (refl, (refl, tt))
digit_at-digits (suc (suc (suc (suc (suc (suc (suc (suc (suc zero))))))))) h = (refl, (refl, tt))
digit_at-digits (suc (suc (suc (suc (suc (suc (suc (suc (suc (suc n)))))))))) h =
    absurd (omega arith)

module _ {W : Type 0} (o : Outside W) (draws : DrawsDigits o) where
  otp_rounds-IsDigits :
      (n : ℕ) (otp : Text) (w : W)
      → IsDigits otp
      → (r : Text) × (v : W) × (otp_rounds o n otp w ≡ ok r v)
        × (length r ≡ length otp + n)
        × IsDigits r
  unfolding otp_rounds
  otp_rounds-IsDigits zero otp w h = (otp, w, refl, omega arith, h)
  otp_rounds-IsDigits (suc n) otp w h =
      let (d, u, drawn, small) = draws w in
      let c = digit_at (get_elem? digits d) in
      let (one, digit) = digit_at-digits d small in
      let (r, v, e, len, all) =
        otp_rounds-IsDigits n (otp ++ c) u (All-append (λ x. is_digit x ≡ true) otp c h digit) in
      (r, v, rw (drawn, otp_rounds) e, omega (arith, length-append otp c), all)

  -- If every draw is a digit, `generateOtp` returns a text of `limit` decimal digits.
  pub generate_otp-IsDigits :
      (limit : ℕ) (w : W)
      → (otp : Text) × (v : W) × (generate_otp o limit w ≡ ok otp v)
        × (length otp ≡ limit)
        × IsDigits otp
  unfolding generate_otp
  generate_otp-IsDigits limit w =
      let (otp, v, e, len, all) = otp_rounds-IsDigits limit [] w tt in (otp, v, e, omega arith, all)

module _ (now : ℕ) (otp : Text) where
  -- `validateOtp` on the two fields that it reads, and what it asks of them.
  abbrev accepts : Option Text → Option ℕ → Bool
  accepts code time =
      option_truthy code && time_truthy time && option_text_eq (some otp) code && is_recent now time

  abbrev Accepted : Option Text → Option ℕ → Type 0
  Accepted code time =
      (t : ℕ) × (code ≡ some otp)
      × (otp ≢ [])
      × (time ≡ some t)
      × (0 < t)
      × (now ≤ t + otp_lifetime)

  Accepted-accepts :
      (code : Option Text) (time : Option ℕ) → accepts code time ≡ true → Accepted code time
  Accepted-accepts none time h = cc
  Accepted-accepts (some []) time h = cc
  Accepted-accepts (some (x ∷ s)) none h = cc
  Accepted-accepts (some (x ∷ s)) (some zero) h = cc
  Accepted-accepts (some (x ∷ s)) (some (suc t)) h =
      let same : otp ≡ x ∷ s = (text_eq_iff otp (x ∷ s)).0 (ground arith) in
      (suc t, ap some (sym same), λ e. cc (same, e), refl, omega arith, ground arith)

  accepts-Accepted :
      (code : Option Text) (time : Option ℕ) → Accepted code time → accepts code time ≡ true
  accepts-Accepted none time (t, c, n, e, pos, recent) = cc
  accepts-Accepted (some []) time (t, c, n, e, pos, recent) = absurd (n (ground arith))
  accepts-Accepted (some (x ∷ s)) none (t, c, n, e, pos, recent) = cc
  accepts-Accepted (some (x ∷ s)) (some zero) (t, c, n, e, pos, recent) = ground arith
  accepts-Accepted (some (x ∷ s)) (some (suc u)) (t, c, n, e, pos, recent) =
      ground (arith, text_eq_iff otp (x ∷ s))

-- The password is accepted exactly when it is the wallet's, not empty, and was made at a time other
-- than 0 that lies at most five minutes back.
pub validate_otp_at_iff :
    (now : ℕ) (wallet : Wallet) (otp : Text)
    → (validate_otp_at now wallet otp ≡ true) ↔ (
        (t : ℕ) × (wallet.otp ≡ some otp)
        × (otp ≢ [])
        × (wallet.otp_created_time ≡ some t)
        × (0 < t)
        × (now ≤ t + otp_lifetime))
unfolding validate_otp_at
validate_otp_at_iff now wallet otp = (
  Accepted-accepts now otp wallet.otp wallet.otp_created_time,
  accepts-Accepted now otp wallet.otp wallet.otp_created_time,
)
