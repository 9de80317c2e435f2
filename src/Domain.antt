-- ===== src/Domain.antt =====
-- internal/domain: the data model that every component shares.
mod Errors
mod Model
pub use Errors.*
pub use Model.*
