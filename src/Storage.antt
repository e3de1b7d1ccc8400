-- ===== src/Storage.antt =====
-- The durable state of helper/opatchy_helper/storage_state.py and storage_watches.py: what a state
-- must satisfy to be written, and what a write prunes.
pub mod Watches
pub mod State
pub mod Durable
pub mod Documents
pub mod Generations
pub mod Bundles
pub mod Accepted
