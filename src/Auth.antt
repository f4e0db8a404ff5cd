-- ===== src/Auth.antt =====
-- Authentication: internal/auth.
pub mod ApiToken
pub mod Password
pub mod Accounts
pub mod Session
