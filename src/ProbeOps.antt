-- ===== src/ProbeOps.antt =====
-- src/lws/probe_ops.py: what one observation of the probe windows says of an unfinished mutation.
pub mod Slots
pub mod Observation
pub mod Decide
pub mod Authority
mod Tests
