-- ===== src/Webhook.antt =====
-- The webhooks: internal/webhook and internal/worker/webhook.go.
pub mod Backoff
pub mod CircuitBreaker
pub mod Delivery
