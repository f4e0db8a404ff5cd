-- ===== src/Tests.antt =====
-- Runs of the definitions on concrete inputs, and the theorems applied to such inputs.
mod Webhook
mod RateLimit
mod DeviceAuth
mod ApiToken
mod Billing
mod ChunkedUpload
mod FileJob
mod Accounts
mod Cleanup
mod Transforms
mod Cdn
mod Folders
mod Subscriptions
