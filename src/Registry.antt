-- ===== src/Registry.antt =====
-- src/lws/registry.py, the parts of `Registry` that are not in src/lws/worker_persistence.py.
pub mod Watchdog
pub mod LeaseRows
pub mod Exclusion
pub mod Actions
pub mod Updates
pub mod Pending
pub mod Changes
pub mod Attempts
pub mod Final
pub mod Overlap
pub mod Race
pub mod Budget
pub mod Probes
pub mod ProbeSteps
pub mod Once
pub mod Opened
mod Tests
mod ProbeTests
