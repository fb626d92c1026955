-- ===== src/Wallets/Service.antt =====
-- src/modules/wallets/wallets.service.ts: the class WalletsService, and cache.service.ts, whose
-- methods hand on to the cache. A document that a function is given is a value: the function saves a
-- changed copy.
use vnst_be.Base.{
  ℕ, ◌/◌, Bool, true, false, Option, none, some, map, Text, txt, ◌++◌, option_text_eq,
  if◌then◌else◌, Exception, http_exception, Io, pure, throw, try_catch, detach, ◌>>=◌, ◌>>◌,
}
use vnst_be.Schema.Chains.{Network, bnb, ton}
use vnst_be.Schema.Wallet.{Wallet, set_email, set_tmp_email}
use vnst_be.External.Models.{WalletFilter, CreateWallet}
use vnst_be.External.Infra.{Outside, update_balance, CacheValue, flag, number}
use vnst_be.Email.Service.{EmailOtp, send_email_otp}
use vnst_be.Wallets.Otp.{generate_otp, validate_otp_at}
use vnst_be.Contract

-- src/modules/wallets/dto/update-wallet.dto.ts. `none` is a body without the property.
pub record UpdateWallet : Type 0 where
  pub enabled_noti : Option Bool

pub record UpdateEmail : Type 0 where
  pub email : Text
  pub otp : Text

abbrev pub by_address : Text → WalletFilter
by_address a = record { wallet_address = some a; network = none; email = none }

abbrev pub by_address_and_network : Text → Network → WalletFilter
by_address_and_network a n = record { wallet_address = some a; network = some n; email = none }

abbrev pub by_email : Text → WalletFilter
by_email e = record { wallet_address = none; network = none; email = some e }

abbrev pub bad_request : Text → Exception
bad_request message = http_exception 400 message

-- `update`'s assignment.
unfoldable pub apply_update : UpdateWallet → Wallet → Wallet
apply_update dto wallet = elim dto.enabled_noti [
  | none ↦ wallet
  | some b ↦ record wallet { enabled_noti = b }
]

-- The assignments of `verifyEmail` and of `updateEmail`.
unfoldable pub begin_verification : Text → ℕ → Text → Wallet → Wallet
begin_verification otp now email wallet =
    set_tmp_email (some email) (record wallet { otp = some otp; otp_created_time = some now })

unfoldable pub confirm_email : Wallet → Wallet
confirm_email wallet =
    set_tmp_email none
      (set_email wallet.tmp_email (record wallet { otp = none; otp_created_time = none }))

-- The answer of `getWalletDetail`.
abbrev pub with_verified : Option Bool → Wallet → Wallet
with_verified none wallet = record wallet { is_verified = false }
with_verified (some b) wallet = record wallet { is_verified = b }

abbrev pub as_flag : Option CacheValue → Option Bool
as_flag none = none
as_flag (some (flag b)) = some b
as_flag (some (number n)) = none

module _ {W : Type 0} (o : Outside W) where
  unfoldable pub create : CreateWallet → Io W Wallet
  create dto = o.wallets.create dto

  unfoldable pub count_holders : Network → Io W ℕ
  count_holders network = o.wallets.count (record { balance_above = 0; network = network })

  unfoldable pub find_by_wallet_address : Text → Io W (Option Wallet)
  find_by_wallet_address address = o.wallets.find_one (by_address address)

  -- The part of `getWalletDetail` that asks whether a wallet is verified.
  unfoldable pub lookup_verified : Text → Network → Option Bool → Io W (Option Bool)
  lookup_verified address bnb none =
      try_catch
        (do
          verified ← Contract.is_verified o address
          detach (o.cache.set (txt "vnst-cms:" ++ address) (flag verified) (some 300))
          pure (some verified))
        (λ e. pure (some false))
  lookup_verified address ton none = pure none
  lookup_verified address network (some b) = pure (some b)

  unfoldable pub get_wallet_detail : Text → Network → Io W (Option Wallet)
  get_wallet_detail address network = do
    cached ← o.cache.get (txt "vnst-cms:" ++ address)
    verified ← lookup_verified address network (as_flag cached)
    found ← o.wallets.find_one (by_address_and_network address network)
    pure (elim found [ none ↦ none | some wallet ↦ some (with_verified verified wallet) ])

  unfoldable pub update_found : UpdateWallet → Option Wallet → Io W (Option Wallet)
  update_found dto none = pure none
  update_found dto (some wallet) = do
    saved ← o.wallets.save (apply_update dto wallet)
    pure (some saved)

  unfoldable pub update : Text → UpdateWallet → Io W (Option Wallet)
  update address dto = do found ← find_by_wallet_address address; update_found dto found

  unfoldable pub get_nonce : Text → Io W Text
  get_nonce address = do
    nonce ← o.random.uuid
    o.wallets.find_one_and_update (by_address address) (record { nonce = nonce; network = bnb })
        true
    pure nonce

  unfoldable pub scan_balance : Io W Text
  scan_balance = do
    wallets ← o.wallets.find
    o.queue.add_bulk (map (λ w. update_balance (some w.wallet_address)) wallets)
    pure (txt "ok")

  -- The message of `verifyEmail`; `sent` is the time in milliseconds.
  unfoldable pub verification_mail : Wallet → Text → Text → ℕ → EmailOtp
  verification_mail wallet otp email sent = record {
    recipient = email;
    subject = txt "[VNST] Email Verification Code  - " ++ o.library.format_date (sent / 1000);
    otp = otp;
    wallet_address = wallet.wallet_address;
  }

  unfoldable pub verify_email : Wallet → Text → Io W (Unit {0})
  verify_email wallet email = do
    otp ← generate_otp o 6
    now ← o.timer.now
    o.wallets.save (begin_verification otp now email wallet)
    sent ← o.timer.now
    send_email_otp o (verification_mail wallet otp email sent)

  -- `validateOtp`, with its reading of the clock.
  unfoldable pub validate_otp : Wallet → Text → Io W Bool
  validate_otp wallet otp = do now ← o.timer.now; pure (validate_otp_at now wallet otp)

  unfoldable pub save_if_valid : Wallet → Bool → Io W Wallet
  save_if_valid wallet valid =
      if valid
      then o.wallets.save (confirm_email wallet)
      else throw (bad_request (txt "OTP is invalid"))

  unfoldable pub update_email : Wallet → UpdateEmail → Io W Wallet
  update_email wallet dto =
      if option_text_eq (some dto.email) wallet.tmp_email
      then validate_otp wallet dto.otp >>= save_if_valid wallet
      else throw (bad_request (txt "Please verify your email first"))
