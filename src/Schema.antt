-- ===== src/Schema.antt =====
-- The documents of the database, src/schema/*.ts, and the constants that they share. Identifiers
-- that mongoose adds (`_id`) are the field `id`; its timestamps are left out where no code reads
-- them. Optional properties are `Option`.
pub mod Chains
pub mod Amount
pub mod Signed
pub mod Wallet
pub mod EventLog
pub mod Notification
pub mod TonTransaction
pub mod Merchant
