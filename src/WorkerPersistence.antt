-- ===== src/WorkerPersistence.antt =====
-- src/lws/worker_persistence.py: the lease protocol over the tables of the registry.
pub mod Tables
pub mod Load
pub mod Persist
pub mod Apply
pub mod Compare
pub mod Consistent
pub mod Commit
pub mod Histories
pub mod Writers
pub mod Records
pub mod Log
pub mod Rows
pub mod FromRows
pub mod Bootstrap
pub mod Legacy
mod Tests
