-- ===== src/Sync.antt =====
-- net/: how a client keeps its repositories in step with its peers.
pub mod Scheduler
