-- ===== src/Service.antt =====
-- src/service.rs: the cache service over the metadata store, the chunk store and the sessions.
pub mod Gc
pub mod Refresh
pub mod Stream
pub mod Probe
pub mod Evict
pub mod Removal
