-- ===== src/Tests.antt =====
-- The theorems at concrete inputs, and runs of the definitions.
mod Data
mod Session
mod Liveness
mod Heard
mod Publishing
mod Methods
mod Mirror
mod Switch
mod Hub
mod Client
mod Connection
mod Handshake
mod State
mod Macros
mod Expand
mod Examples
mod Benchmark
mod Setup
mod Topics
mod Handlers
