-- ===== src/Schema/Notification.antt =====
-- src/schema/notification.schema.ts.
use vnst_be.Base.{ℕ, Bool, Option, Text, txt}
use vnst_be.Schema.Amount.{Amount}

pub data NotificationType : Type 0 where
  mint redeem : NotificationType

abbrev pub notification_type_text : NotificationType → Text
notification_type_text mint = txt "mint"
notification_type_text redeem = txt "redeem"

-- The `metadata` that both callers store.
pub record Metadata : Type 0 where
  pub amount_in : Amount
  pub amount_out : Amount
  pub transaction_hash : Option Text
  pub timestamp : ℕ

pub record Notification : Type 0 where
  pub id : Text
  pub wallet : Text
  pub type : NotificationType
  pub metadata : Metadata
  pub read : Bool
