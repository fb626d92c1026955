-- ===== src/External/Groups.antt =====
-- The documents that the program's aggregations answer, as far as it reads them.
use vnst_be.Base.{ℕ}
use vnst_be.Schema.Amount.{Amount}
use vnst_be.Schema.TonTransaction.{TransactionType}

-- The group with `_id: null` of event-logs.service.ts.
pub record EventGroup : Type 0 where
  pub total_amount_in : Amount
  pub total_amount_out : Amount

-- A group of ton.service.ts, with its `_id`.
pub record TypeGroup : Type 0 where
  pub type : TransactionType
  pub count : ℕ
  pub total_amount_in : Amount
  pub total_amount_out : Amount
