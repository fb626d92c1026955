-- ===== src/Logs.antt =====
-- src/modules/transaction-log and src/modules/token-price: records of transactions and of prices.
pub mod Transactions
pub mod Prices
pub mod Chart
pub mod RecordLaws
