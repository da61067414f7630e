-- ===== src/Assets.antt =====
-- Assets and prices: libraries/chain/protocol/asset.cpp and asset.hpp.
mod Types
mod Prices
pub mod Order
pub mod Rounding
pub mod Shrink
mod Examples
unfoldable pub use Types.*
unfoldable pub use Prices.*
