-- ===== src/User.antt =====
-- services/user-service: accounts and sessions.
pub mod Rows
pub mod Password
pub mod Accounts
pub mod Tokens
pub mod Auth
pub mod Lockout
