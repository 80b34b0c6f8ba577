-- ===== src/Proxy/Attempts.antt =====
-- The attempts of a request at its backends: crates/onair-proxy/src/proxy.rs and proxy/attempt.rs.
pub mod Builder
pub mod Failure
pub mod Context
pub mod Run
