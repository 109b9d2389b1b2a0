-- ===== src/System.antt =====
-- The two ends of a connection and the event switch, put together.
pub mod Opening
pub mod Setup
pub mod Session
pub mod Hub
pub mod Publishing
