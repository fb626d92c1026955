-- ===== src/Email.antt =====
-- src/modules/email: the mails that the program sends.
pub mod Templates
pub mod Service
