-- ===== src/External.antt =====
-- What the program calls and does not implement, as records of operations that the definitions take:
-- the environment, the clock and the random source, mongoose's models, the queue, the cache, the
-- mailer, the contract's node and the TON client. No law is assumed here; a theorem that relies on
-- one states it as a hypothesis.
pub mod Env
pub mod Aggregate
pub mod Groups
pub mod Models
pub mod Infra
