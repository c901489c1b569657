-- ===== src/Orchestrator.antt =====
-- orchestrator/orchestrator.py: the policies between a nudge and its deliveries.
pub mod Kinds
pub mod Recipients
pub mod Jobs
pub mod Limit
pub mod Run
mod Tests
