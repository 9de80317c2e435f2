-- ===== src/Base.antt =====
-- The names that the other modules share: the library's, passed on, and those of the children.
mod Core
mod Tests
mod Lists
mod Int
mod Strings
mod Sort
mod Every
pub use Core.*
pub use Tests.*
pub use Lists.*
pub use Every.*
unfoldable pub use Int.*
unfoldable pub use Sort.*
unfoldable pub use Strings.*
