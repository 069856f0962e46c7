-- ===== src/Accounts.antt =====
-- src/accounts.rs and the account half of src/global_account.rs.
pub mod Health
pub mod Login
pub mod Signal
pub mod Pool
mod Tests
