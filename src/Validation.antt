-- ===== src/Validation.antt =====
-- helper/opatchy_helper/validation.py: what a response must satisfy before it is written and after it
-- is read.
mod Fields
mod Snapshot
mod Responses
pub mod Generations
unfoldable pub use Fields.*
unfoldable pub use Snapshot.*
unfoldable pub use Responses.*
