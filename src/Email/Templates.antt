-- ===== src/Email/Templates.antt =====
-- The bodies of the mails, src/modules/email/templates/*.ts. A template string is a list of pieces,
-- one literal for each line of the source and one hole for each `${...}`.
pub mod Pieces
pub mod Otp
pub mod Mint
pub mod Redeem
pub mod Layout
pub mod WelcomeHead
pub mod Welcome
