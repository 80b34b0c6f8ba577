-- ===== src/Core.antt =====
-- crates/onair-core: what the proxy, the observers and the application share.
pub mod Error
pub mod Sanitize
pub mod Cidr
pub mod Auth
pub mod ContextCache
pub mod Config
pub mod Openai
