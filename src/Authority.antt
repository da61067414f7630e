-- ===== src/Authority.antt =====
-- Who has approved a transaction: libraries/chain/protocol/transaction.cpp and authority.hpp.
mod Types
mod Signing
mod Verify
pub mod Power
pub mod Tracked
pub mod Sound
pub mod Checked
pub mod Verified
pub mod Approved
pub mod Keys
mod Minimize
pub mod Rising
pub mod Minimal
mod Examples
unfoldable pub use Types.*
unfoldable pub use Signing.*
unfoldable pub use Verify.*
