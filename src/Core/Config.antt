-- ===== src/Core/Config.antt =====
-- crates/onair-core/src/config.rs: the configuration file, and its resolution into the
-- configuration that the proxy runs with.
pub mod Types
pub mod Result
pub mod Markers
pub mod TopLevel
pub mod Secrets
pub mod Routes
pub mod Resolve
pub mod Reload
