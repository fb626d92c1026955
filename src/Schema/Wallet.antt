-- ===== src/Schema/Wallet.antt =====
-- src/schema/wallet.schema.ts.
use vnst_be.Base.{ℕ, Bool, Option, none, some, Text, to_lower_case, trim}
use vnst_be.Schema.Chains.{Network}
use vnst_be.Schema.Amount.{Amount}

pub record Wallet : Type 0 where
  pub id : Text
  pub email : Option Text
  pub wallet_address : Text
  pub enabled_noti : Bool
  pub balance : Amount
  pub nonce : Option Text
  pub otp : Option Text
  pub otp_created_time : Option ℕ
  pub tmp_email : Option Text
  pub network : Network
  pub is_verified : Bool

-- What the schema's `trim: true, lowercase: true` makes of a value that is assigned to `email` or
-- `tmpEmail`.
unfoldable pub email_setter : Option Text → Option Text
email_setter none = none
email_setter (some s) = some (to_lower_case (trim s))

-- `wallet.email = value` and `wallet.tmpEmail = value`.
unfoldable pub set_email : Option Text → Wallet → Wallet
set_email value w = record w { email = email_setter value }

unfoldable pub set_tmp_email : Option Text → Wallet → Wallet
set_tmp_email value w = record w { tmp_email = email_setter value }
