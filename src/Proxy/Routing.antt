-- ===== src/Proxy/Routing.antt =====
-- crates/onair-proxy/src/routing.rs: which backends may serve a request, in which mode, and in
-- which order they are tried.
pub mod Paths
pub mod Modes
pub mod Strategy
pub mod Select
