-- ===== src/Watcher.antt =====
-- src/lws/watcher.py: the classification of one task from its durable and browser evidence.
pub mod Evidence
pub mod Assess
pub mod Caution
pub mod Truth
mod Tests
