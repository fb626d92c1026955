-- ===== src/Notifications.antt =====
-- src/modules/notification: the notifications of a wallet.
pub mod Service
pub mod OwnerLaws
