-- ===== src/Billing.antt =====
-- What an account may do, by its tier and its usage (internal/billing).
pub mod Limits
pub mod Subscriptions
