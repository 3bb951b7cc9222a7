-- ===== src/Models.antt =====
-- src/lws/models.py: the records that the policies read and write.
pub mod Task
pub mod Observation
pub mod Mutation
