-- ===== src/Merchants.antt =====
-- src/modules/merchant and src/modules/merchant-subscriber.
pub mod Subscriber
pub mod Queries
pub mod Totals
pub mod Service
pub mod QueryLaws
pub mod SubscriberLaws
pub mod TotalLaws
