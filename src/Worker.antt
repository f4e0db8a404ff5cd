-- ===== src/Worker.antt =====
-- The queue of background jobs (internal/worker).
pub mod Enqueue
pub mod FileJob
pub mod Cleanup
