-- ===== src/Recovery.antt =====
-- src/lws/recovery.py: the advice for a task that an assessment has judged.
pub mod Recommend
pub mod Advice
mod Tests
