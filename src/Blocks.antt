-- ===== src/Blocks.antt =====
-- The files of blocks: libraries/chain/block_database.cpp.
mod Files
mod Bytes
pub mod Stored
pub mod Kept
pub mod Last
mod Examples
unfoldable pub use Files.*
