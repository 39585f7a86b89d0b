-- ===== src/Core.antt =====
-- src/bridge/core
pub mod Value
pub mod Errors
pub mod Json
pub mod State
pub mod Models
