-- ===== src/Tests.antt =====
-- Small inputs: what the program does on them, and the theorems at inputs that meet their hypotheses.
mod Samples
mod Core
mod Scheduler
mod TaskDelete
mod Classifier
mod Reconcile
mod Agent
mod Workspace
mod Review
mod Events
mod Config
mod Priority
mod Dispatch
mod Records
mod Integration
mod Architect
