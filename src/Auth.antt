-- ===== src/Auth.antt =====
-- src/modules/auth: logging in with an EVM or a TON wallet.
pub mod Service
pub mod Controller
pub mod Guards
pub mod LoginLaws
pub mod GuardLaws
pub mod RefusalLaws
pub mod Strategy
pub mod SessionLaws
pub mod NonceLaws
pub mod ReplayLaws
