-- ===== src/WorkerProtocol.antt =====
-- src/lws/worker_protocol.py: the lease protocol of the workers of one durable task.
pub mod State
pub mod Workers
pub mod Checks
pub mod Operations
pub mod Endings
pub mod Validity
pub mod Accept
pub mod Spec
pub mod Preserve
pub mod Refine
pub mod Traces
pub mod Fencing
pub mod Revisions
pub mod Tokens
pub mod Leases
mod Tests
