-- ===== src/Permit.antt =====
-- Permissions to withdraw: libraries/chain/withdraw_permission_evaluator.cpp,
-- withdraw_permission_object.hpp, is_authorized_asset.cpp and the balances of db_balance.cpp.
mod Types
mod Balances
mod Evaluators
pub mod Periods
pub mod Claim
mod Examples
pub use Types.*
unfoldable pub use Balances.*
unfoldable pub use Evaluators.*
