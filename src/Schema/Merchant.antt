-- ===== src/Schema/Merchant.antt =====
-- src/schema/merchant.schema.ts, merchant-subscriber.schema.ts, merchant-contribution-history.schema.ts
-- and merchant-liquidity-support.schema.ts. Dates are milliseconds since 1970.
use vnst_be.Base.{ℕ, Option, Text}
use vnst_be.Schema.Chains.{ChainId, Token}
use vnst_be.Schema.Amount.{Amount}

pub record Merchant : Type 0 where
  pub id : Text
  pub name : Text
  pub code : Text
  pub wallet_address : Text

pub record MerchantSubscriber : Type 0 where
  pub id : Text
  pub name : Text
  pub email : Option Text
  pub telegram_id : Option Text

pub record ContributionHistory : Type 0 where
  pub merchant : Text
  pub amount : Amount
  pub token : Token
  pub transaction_hash : Text
  pub chain_id : ChainId
  pub created_at : ℕ
  pub updated_at : ℕ

-- LIQUIDITY_SUPPORT_TYPE of src/modules/merchant/merchant.constants.ts: IN and OUT.
pub data LiquiditySupportType : Type 0 where
  support_in support_out : LiquiditySupportType

pub record LiquiditySupport : Type 0 where
  pub merchant : Text
  pub amount : Amount
  pub token : Token
  pub transaction_hash : Text
  pub chain_id : ChainId
  pub type : LiquiditySupportType
