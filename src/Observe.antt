-- ===== src/Observe.antt =====
-- The observation of backends and of requests: crates/onair-obs/src/observe.
pub mod Health
pub mod Inspector
pub mod Timeline
pub mod ClientInfo
