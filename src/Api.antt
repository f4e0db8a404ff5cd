-- ===== src/Api.antt =====
-- The HTTP API: internal/api.
pub mod DeviceAuth
pub mod ChunkedUpload
pub mod RateLimit
pub mod Transforms
pub mod Cdn
pub mod Folders
