-- ===== src/Files.antt =====
-- The storage of helper/opatchy_helper/storage.py, with storage_locked_state.py and storage_cache.py:
-- operations on the files of the state and of the cache.
pub mod Disk
pub mod States
pub mod Caches
pub mod Operations
pub mod Loads
pub mod Commits
pub mod Kept
pub mod Published
pub mod Cached
pub mod Inventories
