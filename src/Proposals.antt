-- ===== src/Proposals.antt =====
-- Proposed transactions: libraries/chain/proposal_evaluator.cpp, proposal_object.cpp,
-- protocol/proposal.cpp, `push_proposal` of db_block.cpp and `clear_expired_proposals` of db_update.cpp.
mod Types
mod Evaluators
mod Index
pub mod Indexed
pub mod Executed
pub mod Expired
mod Examples
unfoldable pub use Types.*
unfoldable pub use Evaluators.*
unfoldable pub use Index.*
