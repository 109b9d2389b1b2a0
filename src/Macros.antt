-- ===== src/Macros.antt =====
-- The code that the macros of macros/src/lib.rs generate, and the macros' own helpers.
pub mod State
pub mod Naming
pub mod Expand
pub mod Rpc
pub mod AppClient
