-- ===== src/Wallets/EmailLaws.antt =====
-- Changing the mail address of a wallet: POST /wallets/verify-email, then PUT /wallets/update-email.
use vnst_be.Base.{
  txt, [], ◌∙◌, ap, ℕ, ◌+◌, ◌≤◌, ◌<◌, ◌≡◌, ◌≢◌, ◌⊎◌, refl, true, Option, none, some, Text,
  text_eq_iff, text_eq_refl, option_text_eq, Exception, ok, thrown, arith, Result-cases, inl, inr,
  sym,
}
use vnst_be.Schema.Wallet.{Wallet, email_setter, set_email, set_tmp_email}
use vnst_be.External.Infra.{Outside, Mail}
use vnst_be.Wallets.Otp.{otp_lifetime, validate_otp_at}
use vnst_be.Wallets.OtpLaws.{validate_otp_at_iff}
use vnst_be.Wallets.Service.{
  UpdateEmail, by_address, bad_request, begin_verification, confirm_email, validate_otp,
  update_email, save_if_valid, find_by_wallet_address,
}
use vnst_be.Wallets.Controller.{TokenPayload, put_update_email}

-- What the two requests rely on: `stored wallet w` says that the database holds the document in the
-- state `w`. A document that is saved is stored and found again by its address, and neither the
-- clock nor the random source nor the mailer touches it. The mailer may throw.
pub record WalletStore {W : Type 0} (o : Outside W) (stored : Wallet → W → Type 0) : Type 0 where
  pub time : W → ℕ
  pub saves :
      (wallet : Wallet) (w : W)
      → (r : Wallet) × (v : W) × (o.wallets.save wallet w ≡ ok r v)
        × stored wallet v
        × (time v ≡ time w)
  pub finds :
      (wallet : Wallet) (w : W)
      → stored wallet w
      → (v : W) × (o.wallets.find_one (by_address wallet.wallet_address) w ≡ ok (some wallet) v)
        × stored wallet v
        × (time v ≡ time w)
  pub reads_clock :
      (w : W)
      → (v : W) × (o.timer.now w ≡ ok (time w) v)
        × (time v ≡ time w)
        × ((wallet : Wallet) → stored wallet w → stored wallet v)
  pub draws : (w : W) → (d : ℕ) × (v : W) × (o.random.digit w ≡ ok d v) × (d < 10)
  pub mails :
      (wallet : Wallet) (mail : Mail) (w : W)
      → stored wallet w
      → ((v : W) × (o.mailer.send mail w ≡ ok tt v) × stored wallet v)
        ⊎ ((e : Exception) × (v : W) × (o.mailer.send mail w ≡ thrown e v) × stored wallet v)

update_email-save :
    {W : Type 0} (o : Outside W) (wallet : Wallet) (dto : UpdateEmail) (w : W) (now : ℕ) (u : W)
    → wallet.tmp_email ≡ some dto.email
    → o.timer.now w ≡ ok now u
    → validate_otp_at now wallet dto.otp ≡ true
    → update_email o wallet dto w ≡ o.wallets.save (confirm_email wallet) u
unfolding update_email validate_otp save_if_valid validate_otp_at confirm_email
update_email-save o wallet dto w now u e read valid = rw (e, text_eq_refl dto.email, read, valid)

module _ {W : Type 0} (o : Outside W) {stored : Wallet → W → Type 0}
    (store : WalletStore o stored) where
  -- PUT /wallets/update-email with the address and the password of a stored verification that is at
  -- most five minutes old succeeds: the wallet is then stored with that address confirmed.
  pub put_update_email-stored :
      (user : TokenPayload) (wallet : Wallet) (otp : Text) (now : ℕ) (email : Text) (w : W)
      → stored (begin_verification otp now email wallet) w
      → wallet.wallet_address ≡ user.wallet_address
      → email_setter (some email) ≡ some email
      → otp ≢ []
      → 0 < now
      → store.time w ≤ now + otp_lifetime
      → (r : Wallet) × (v : W) × (put_update_email o user (record { email = email; otp = otp }) w
          ≡ ok r v)
        × stored (confirm_email (begin_verification otp now email wallet)) v
        × ((confirm_email (begin_verification otp now email wallet)).email ≡ some email)
  unfolding put_update_email find_by_wallet_address begin_verification set_tmp_email confirm_email
      set_email
  put_update_email-stored user wallet otp now email w s same fixed nonempty pos recent =
      let pending = begin_verification otp now email wallet in
      let (w1, found, s1, t1) = store.finds pending w s in
      let (w2, read, t2, keep2) = store.reads_clock w1 in
      let valid =
        (validate_otp_at_iff (store.time w1) pending otp).1
          (now, refl, nonempty, refl, pos, omega arith) in
      let (r, v, saved, s3, t3) = store.saves (confirm_email pending) w2 in
      let done =
        update_email-save o pending (record { email = email; otp = otp }) w1 (store.time w1) w2
          fixed read valid in
      (r, v, rw (← same, found, done) saved, s3, ap email_setter fixed ∙ fixed)

  -- Once the address is confirmed, the same or any other request to confirm one is refused, and
  -- nothing is written: a password serves once.
  pub put_update_email-spent :
      (user : TokenPayload) (wallet : Wallet) (dto : UpdateEmail) (w : W)
      → stored (confirm_email wallet) w
      → wallet.wallet_address ≡ user.wallet_address
      → (e : Exception) × (v : W) × (put_update_email o user dto w ≡ thrown e v)
        × stored (confirm_email wallet) v
  unfolding put_update_email find_by_wallet_address update_email confirm_email set_tmp_email
      email_setter validate_otp set_email
  put_update_email-spent user wallet dto w s same =
      let (w1, found, s1, t1) = store.finds (confirm_email wallet) w s in
      (bad_request (txt "Please verify your email first"), w1, rw (← same, found), s1)

-- If `updateEmail` saves a wallet, then the address is the one to verify, the password is the
-- wallet's and at most five minutes old by the clock's reading, and what is saved is the wallet with
-- the address confirmed.
pub update_email-safe :
    {W : Type 0} (o : Outside W) (wallet : Wallet) (dto : UpdateEmail) (w : W) (r : Wallet) (v : W)
    → update_email o wallet dto w ≡ ok r v
    → (now : ℕ) × (u : W) × (t : ℕ) × (wallet.tmp_email ≡ some dto.email)
      × (o.timer.now w ≡ ok now u)
      × (wallet.otp ≡ some dto.otp)
      × (wallet.otp_created_time ≡ some t)
      × (now ≤ t + otp_lifetime)
      × (o.wallets.save (confirm_email wallet) u ≡ ok r v)
unfolding update_email validate_otp save_if_valid
update_email-safe {W} o wallet dto w r v h = elim (Result-cases (o.timer.now w)) [
  | inr (e, u, p) ↦ absurd (ground arith)
  | inl (now, u, p) ↦
      let same : option_text_eq (some dto.email) wallet.tmp_email ≡ true = ground arith in
      let valid : validate_otp_at now wallet dto.otp ≡ true = ground arith in
      let (t, code, n, time, pos, recent) = (validate_otp_at_iff now wallet dto.otp).0 valid in
      (now, u, t, tmp_email-eq wallet.tmp_email same, p, code, time, recent, ground arith)
]
  where
    tmp_email-eq : (t : Option Text) → option_text_eq (some dto.email) t ≡ true → t ≡ some dto.email
    tmp_email-eq none e = cc
    tmp_email-eq (some s) e = ap some (sym ((text_eq_iff dto.email s).0 e))
