-- ===== src/Schema/TonTransaction.antt =====
-- src/schema/ton-transaction.schema.ts and src/modules/ton/types/transaction.ts. The document has
-- the fields of a parsed transaction.
use vnst_be.Base.{ℕ, Text, txt}
use vnst_be.Schema.Amount.{Amount}

pub data TransactionType : Type 0 where
  mint redeem transfer : TransactionType

abbrev pub transaction_type_text : TransactionType → Text
transaction_type_text mint = txt "MINT"
transaction_type_text redeem = txt "REDEEM"
transaction_type_text transfer = txt "TRANSFER"

pub record Payload : Type 0 where
  pub in_amount : Amount
  pub out_amount : Amount
  pub query_id : ℕ

pub record TransactionParsed : Type 0 where
  pub type : TransactionType
  pub hash : Text
  pub from_address : Text
  pub to_address : Text
  pub payload : Payload
  pub opcode : ℕ
  pub timestamp : ℕ
  pub lt : Text

abbrev pub TonTransaction : Type 0
TonTransaction = TransactionParsed
