-- ===== src/Market.antt =====
-- Order matching: libraries/chain/db_market.cpp, market_object.hpp, and what they use of
-- account_object.cpp and db_balance.cpp.
mod Types
mod Fill
mod Match
mod Settle
mod Book
mod Worth
mod Moves
pub mod Cancelled
pub mod Reduced
pub mod Filled
pub mod Matched
pub mod Priority
pub mod Booked
pub mod Between
pub mod Finished
pub mod Applied
pub mod Called
pub mod Settled
pub mod Backed
mod Examples
unfoldable pub use Types.*
unfoldable pub use Fill.*
unfoldable pub use Match.*
unfoldable pub use Settle.*
unfoldable pub use Book.*
