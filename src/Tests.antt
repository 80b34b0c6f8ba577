-- ===== src/Tests.antt =====
-- Runs of the definitions at concrete inputs, and the theorems applied to them.
mod Fixtures
mod Access
mod Configuration
pub mod Routing
mod Observation
mod Streams
mod Conversions
mod Messages
mod Attempts
mod Clients
