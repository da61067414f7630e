-- ===== src/Fork.antt =====
-- The fork database, libraries/chain/fork_database.cpp and .hpp: the recent blocks of all forks.
mod Items
mod Database
pub mod Branch
pub mod Invariant
pub mod Push
pub mod Head
pub mod Longest
mod Examples
pub use Items.*
unfoldable pub use Database.*
