-- ===== src/Tests/Wallets.antt =====
-- One-time passwords and the change of a mail address.
use vnst_be.Base.{
  ℕ, List, ◌+◌, ◌≡◌, ◌≢◌, ◌≤◌, refl, some, text_eq, to_lower_case, trim, Text, txt, Exception, ok,
  thrown, arith,
}
use vnst_be.Schema.Chains.{bnb}
use vnst_be.Schema.Wallet.{Wallet, email_setter, set_email, set_tmp_email}
use vnst_be.Wallets.Otp.{validate_otp_at, otp_lifetime}
use vnst_be.Wallets.Service.{
  begin_verification, confirm_email, update_email, validate_otp, save_if_valid,
}
use vnst_be.Wallets.Controller.{TokenPayload, put_update_email}
use vnst_be.Wallets.EmailLaws.{put_update_email-stored, put_update_email-spent, update_email-safe}
use vnst_be.External.Infra.{Mail}
use vnst_be.Tests.World.{World, world, wallet_a, outside, Stored, wallet_store}

abbrev user : TokenPayload
user = record { id = txt "a"; wallet_address = txt "0xa"; network = bnb }

abbrev mail : Text
mail = txt "a@b.io"

abbrev otp : Text
otp = txt "777777"

abbrev begun : Wallet
begun = begin_verification otp 900 mail wallet_a

abbrev mails_of : World → List Mail
mails_of w = w.outbox

abbrev verifying : World
verifying = record world { wallet = some begun }

-- The setter keeps the address, and the stored address is the one to confirm.
mail_fixed : email_setter (some mail) ≡ some mail
unfolding email_setter to_lower_case trim
mail_fixed = refl

nonempty : otp ≢ txt ""
nonempty = cc

begun_updates :
    update_email outside begun (record { email = mail; otp = otp }) verifying
    ≡ ok (confirm_email begun) (record world { wallet = some (confirm_email begun) })
unfolding update_email validate_otp validate_otp_at save_if_valid begin_verification confirm_email
    set_tmp_email set_email email_setter text_eq to_lower_case trim
begun_updates = refl

put_update_email-stored_example :
    (r : Wallet) × (v : World) × (put_update_email outside user
        (record { email = mail; otp = otp })
        verifying
      ≡ ok r v)
    × Stored (confirm_email begun) v
    × ((confirm_email begun).email ≡ some mail)
put_update_email-stored_example =
    put_update_email-stored outside wallet_store user wallet_a otp 900 mail verifying refl refl
      mail_fixed nonempty (omega arith) (omega arith)

put_update_email-spent_example :
    (e : Exception) × (v : World) × (put_update_email outside user
        (record { email = mail; otp = otp })
        (record world { wallet = some (confirm_email begun) })
      ≡ thrown e v)
    × Stored (confirm_email begun) v
unfolding begin_verification set_tmp_email
put_update_email-spent_example =
    put_update_email-spent outside wallet_store user begun (record { email = mail; otp = otp })
      (record world { wallet = some (confirm_email begun) }) refl refl

update_email-safe_example :
    (now : ℕ) × (u : World) × (t : ℕ) × (begun.tmp_email ≡ some mail)
    × (outside.timer.now verifying ≡ ok now u)
    × (begun.otp ≡ some otp)
    × (begun.otp_created_time ≡ some t)
    × (now ≤ t + otp_lifetime)
    × (outside.wallets.save (confirm_email begun) u
        ≡ ok (confirm_email begun) (record world { wallet = some (confirm_email begun) }))
update_email-safe_example =
    update_email-safe outside begun (record { email = mail; otp = otp }) verifying
      (confirm_email begun) (record world { wallet = some (confirm_email begun) }) begun_updates
