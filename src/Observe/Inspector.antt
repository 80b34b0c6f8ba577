-- ===== src/Observe/Inspector.antt =====
-- The request inspector: crates/onair-obs/src/observe/inspector.
pub mod Records
pub mod Store
pub mod Live
