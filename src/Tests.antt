-- ===== src/Tests.antt =====
-- Small inputs, and the theorems at them, a module for each part.
mod Samples
mod Containers
mod Sets
mod Stamps
mod Syncing
mod Filters
mod Before
mod Graph
mod Sessions
mod Access
mod Repository
mod Reading
mod Picking
mod Merging
mod Ordered
mod Changes
mod Linking
