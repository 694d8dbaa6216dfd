-- ===== src/Session.antt =====
-- src/session.rs: downloads of one file shared by the requests that read it.
pub mod Ranges
pub mod State
pub mod Selection
pub mod Forwarding
pub mod Prefetch
pub mod Run
pub mod Fetch
pub mod Table
pub mod Manager
