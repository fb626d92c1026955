-- ===== src/Ton.antt =====
-- src/modules/ton: the proof of a TON wallet, and the transactions of the TON contract.
pub mod Cells
pub mod WalletsData
pub mod WalletKey
pub mod WalletKeyLaws
pub mod Bytes
pub mod Proof
pub mod BytesLaws
pub mod ProofLaws
pub mod MessageLaws
pub mod Parse
pub mod Schedule
pub mod Service
pub mod Statistics
pub mod Subscription
pub mod Ticker
pub mod ParseLaws
pub mod ScheduleLaws
pub mod SubscriptionLaws
pub mod Stored
pub mod InsertLaws
pub mod StoredLaws
pub mod RestartLaws
pub mod TickerLaws
