-- ===== src/Store.antt =====
-- libraries/db: the object database, its primary indexes (object_id.hpp, index.hpp,
-- generic_index.hpp, object_database.hpp) and the calls that they make of the undo database.
mod Types
mod Undo
pub mod Objects
pub mod Records
pub mod Rewind
pub mod Merge
pub mod Compose
pub mod Sessions
pub mod History
mod Examples
pub use Types.*
unfoldable pub use Undo.*
