-- ===== src/Tests.antt =====
-- The theorems applied to concrete inputs, in a small world outside of the program.
mod World
mod Utils
mod Wallets
mod Ton
mod Auth
mod EventLogs
mod Services
mod Logs
mod Stats
mod Once
mod TonStore
mod Decoded
mod Nonce
mod Merchants
mod Exact
