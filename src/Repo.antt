-- ===== src/Repo.antt =====
-- repo/repo.ts: the class `Repository` and its storage in memory, a module for each concern.
pub mod Order
pub mod Storage
pub mod Records
pub mod Heads
pub mod MergeBase
pub mod Delta
pub mod Link
pub mod Unique
pub mod Before
pub mod Probable
pub mod Merge
