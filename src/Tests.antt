-- ===== src/Tests.antt =====
-- The theorems at concrete inputs.
pub mod Samples
pub mod Metadata
pub mod Service
pub mod Session
pub mod Fetch
pub mod Storage
pub mod Server
pub mod Catalog
pub mod Proxy
pub mod Requests
pub mod Settings
pub mod Sessions
