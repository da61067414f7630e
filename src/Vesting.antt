-- ===== src/Vesting.antt =====
-- Balances that vest: libraries/chain/vesting_balance_object.cpp and vesting_balance_object.hpp.
mod Types
mod Policy
mod Balance
pub mod CoinSeconds
pub mod Linear
pub mod Withdraw
pub mod Deposits
pub mod Twice
mod Examples
pub use Types.*
unfoldable pub use Policy.*
unfoldable pub use Balance.*
