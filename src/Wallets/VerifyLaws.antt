-- ===== src/Wallets/VerifyLaws.antt =====
-- On POST /wallets/verify-email, src/modules/wallets and src/modules/email.
use vnst_be.Base.{◌≡◌, ◌⊎◌, some, List, [], ◌∷◌, ◌++◌, Text, Exception, ok, thrown, Leaves}
use vnst_be.Schema.Wallet.{Wallet}
use vnst_be.External.Models.{WalletFilter}
use vnst_be.External.Infra.{Outside, Mail}
use vnst_be.Email.Templates.Otp.{otp_template}
use vnst_be.Email.Templates.Layout.{send_email_template}
use vnst_be.Wallets.EmailLaws.{WalletStore}

-- What else a verification relies on: `outbox` holds the mails that were sent. A mail is sent and put
-- behind them, or the mailer throws and they stay; the document stays stored. Nothing else changes
-- them, and drawing a digit takes no time.
pub record IsMailed {W : Type 0} (o : Outside W) {stored : Wallet → W → Type 0}
    (store : WalletStore o stored) (outbox : W → List Mail) : Type 0 where
  pub sends :
      (mail : Mail) (wallet : Wallet) (w : W)
      → stored wallet w
      → ((v : W) × (o.mailer.send mail w ≡ ok tt v)
          × stored wallet v
          × (outbox v ≡ outbox w ++ mail ∷ []))
        ⊎ ((e : Exception) × (v : W) × (o.mailer.send mail w ≡ thrown e v)
            × stored wallet v
            × (outbox v ≡ outbox w))
  pub saves : (wallet : Wallet) → Leaves outbox (o.wallets.save wallet)
  pub finds : (filter : WalletFilter) → Leaves outbox (o.wallets.find_one filter)
  pub reads : Leaves outbox o.timer.now
  pub draws : Leaves outbox o.random.digit
  pub draws_at_once : Leaves store.time o.random.digit

module _ {W : Type 0} (o : Outside W) {stored : Wallet → W → Type 0} (store : WalletStore o stored)
    {outbox : W → List Mail} (mailed : IsMailed o store outbox) where
  -- Between the two states the mail was sent, or the mailer threw when it was to send it.
  abbrev pub IsSent : Mail → W → W → Type 0
  IsSent mail w v =
      (outbox v ≡ outbox w ++ mail ∷ [])
      ⊎ ((outbox v ≡ outbox w)
          × ((e : Exception) × (u : W) × (u' : W) × (o.mailer.send mail u ≡ thrown e u')))

  -- A mail to this address with this password.
  abbrev pub IsOtpMail : Wallet → Text → Text → Mail → Type 0
  IsOtpMail wallet email otp mail =
      (mail.to ≡ some email)
      × (mail.html ≡ send_email_template (otp_template wallet.wallet_address otp))
