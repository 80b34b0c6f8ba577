-- ===== src/Core/Openai.antt =====
-- crates/onair-core/src/openai: the bodies and the event streams of the protocol.
pub mod Json
pub mod Usage
pub mod Rewrite
pub mod Sse
pub mod Normalizer
pub mod ResponsesStream
pub mod ChatStream
pub mod MessagesStream
pub mod AnthropicStream
