-- ===== src/Proxy.antt =====
-- crates/onair-proxy: the routing of requests to backends and the attempts at them.
pub mod Routing
pub mod Attempts
pub mod Errors
