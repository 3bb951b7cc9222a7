-- ===== src/Orchestration.antt =====
-- src/lws/orchestration.py: which recovery, if any, the durable evidence of a task permits.
pub mod Input
pub mod Gates
pub mod Stages
pub mod Ownership
pub mod Samples
pub mod Evaluate
pub mod Requirements
pub mod Holdings
pub mod Stability
pub mod Window
pub mod Decisions
pub mod Backoff
pub mod Caution
pub mod Plan
pub mod Selection
pub mod Slots
mod Tests
mod PlanTests
