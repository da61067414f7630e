-- ===== src/Schedule.antt =====
-- The slots of the witnesses: libraries/chain/db_witness_schedule.cpp.
mod Slots
mod Shuffle
pub mod Times
pub mod Permuted
pub mod Turns
mod Examples
unfoldable pub use Slots.*
unfoldable pub use Shuffle.*
