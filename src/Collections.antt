-- ===== src/Collections.antt =====
-- base/algorithms.ts and base/collections: the containers that the rest of the program stands on.
pub mod Search
pub mod SortedList
pub mod HashSet
pub mod SetUtils
pub mod OrderedMap
pub mod LruCache
