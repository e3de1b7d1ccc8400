-- ===== src/Models.antt =====
-- helper/opatchy_helper/models.py
mod Sources
mod Security
mod Records
mod State
pub use Sources.*
pub use Security.*
pub use Records.*
unfoldable pub use State.*
