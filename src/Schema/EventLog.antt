-- ===== src/Schema/EventLog.antt =====
-- src/schema/event-log.schema.ts. `Fields` are the decoded arguments of an event: the program reads
-- the first three by position and `created_at`, `from` and `to` by name.
use vnst_be.Base.{ℕ, Option, List, Bool, Text}
use vnst_be.Schema.Chains.{ChainId}

-- One value of `Record<string, unknown>`: a string, a big integer, a Boolean, a number, null, or an
-- array. The numbers are those that are whole and not negative, as web3's `__length__`, and the
-- big integers those of unsigned types; objects inside are left out.
mutual
  pub data FieldValue : Type 0 where
    text : Text → FieldValue
    bigint : ℕ → FieldValue
    bool : Bool → FieldValue
    js_number : ℕ → FieldValue
    null : FieldValue
    array : FieldValues → FieldValue

  pub data FieldValues : Type 0 where
    no_values : FieldValues
    with_value : FieldValue → FieldValues → FieldValues

pub record RawLog : Type 0 where
  pub raw_data : Text
  pub topics : List Text

pub record EventLog : Type 0 where
  pub event : Text
  pub address : Text
  pub topics : List Text
  pub raw_data : Text
  pub block_number : Option ℕ
  pub transaction_hash : Option Text
  pub transaction_index : Option ℕ
  pub block_hash : Option Text
  pub log_index : Option ℕ
  pub return_values : List (Text × FieldValue)
  pub raw : Option RawLog
  pub signature : Option Text
  pub chain_id : ChainId

-- The unique index { blockHash, transactionHash, logIndex, chainId }.
pub record LogKey : Type 0 where
  pub block_hash : Option Text
  pub transaction_hash : Option Text
  pub log_index : Option ℕ
  pub chain_id : ChainId

abbrev pub log_key : EventLog → LogKey
log_key l = record {
  block_hash = l.block_hash;
  transaction_hash = l.transaction_hash;
  log_index = l.log_index;
  chain_id = l.chain_id;
}
