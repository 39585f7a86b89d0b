-- ===== src/Scheduler.antt =====
-- src/bridge/scheduler
pub mod Matcher
pub mod Capacity
pub mod Affinity
pub mod Dependency
pub mod Clock
pub mod Lease
pub mod Finish
pub mod Reconcile
pub mod Planner
pub mod Priority
