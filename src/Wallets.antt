-- ===== src/Wallets.antt =====
-- src/modules/wallets: wallets, their mail addresses and their one-time passwords.
pub mod Otp
pub mod Service
pub mod Controller
pub mod OtpLaws
pub mod EmailLaws
pub mod VerifyLaws
