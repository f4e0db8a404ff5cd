-- ===== src/Processor.antt =====
-- The processing of files (internal/processor).
pub mod Video
