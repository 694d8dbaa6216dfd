-- ===== src/Server.antt =====
-- src/server.rs: the HTTP handlers.
pub mod Singleflight
pub mod Range
pub mod Response
pub mod Conditional
pub mod Proxy
pub mod Admin
