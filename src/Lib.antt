-- ===== src/Lib.antt =====
-- Karma core: a model of parts of the chain and of its database, with theorems.
--
-- The program is a blockchain node. `libraries/db` keeps the objects of the chain in indexes and
-- records every change in an undo history; `libraries/chain` applies blocks to them: the fork
-- database holds the blocks of competing forks and the block files those that are kept, a block's
-- transactions are checked for the signatures that their operations require, and evaluators check and
-- apply the operations: transfers of balances, trades of orders, and proposals of further operations.
--
-- * Store (Store.antt and below) models libraries/db/undo_database.cpp and .hpp, object_database,
--   index.hpp, generic_index.hpp and object_id.hpp. `Store` is all indexes together, `UndoDatabase` the
--   deque of undo states (its back is the list's head), and `create`, `modify`, `remove`, `undo`,
--   `merge`, `commit`, `pop_commit` and `start_undo_session` are the functions of those names. The loop
--   that trims the deque has the deque's size as fuel. Of the unique keys of an index only the id is
--   modelled. An exception is an error value
--   without a state: what it leaves of the objects is not modelled.
-- * Fork models libraries/chain/fork_database.cpp and .hpp. A weak pointer to a parent is a number, which
--   `lock` resolves among the items that are still held. The loops of `fetch_branch_from` have the
--   numbers of the blocks they start from, plus one, as fuel.
-- * Authority models `sign_state`, `verify_authority`, `get_signature_keys`, `get_required_signatures`
--   and `minimize_required_signatures` of libraries/chain/protocol/transaction.cpp
--   and the authority of authority.hpp. `check_authority` recurses on the levels that are still
--   allowed. Keys, addresses and accounts are numbers; the keys that signatures recover to, the
--   addresses of a key and the authorities of an account are parameters.
-- * Vesting models libraries/chain/vesting_balance_object.cpp and .hpp. An amount is a natural number,
--   the coin seconds have 128 bits, and their conversion to 64 bits is a parameter.
-- * Schedule models the slots and the shuffle of libraries/chain/db_witness_schedule.cpp in 32 and
--   64 bits. A swap out of range is `undefined`.
-- * Permit models libraries/chain/withdraw_permission_evaluator.cpp, is_authorized_asset.cpp and
--   `get_balance` and `adjust_balance` of db_balance.cpp. Amounts are exact, where the code's
--   `share_type` throws on overflow.
-- * Assets models the amounts and prices of libraries/chain/protocol/asset.hpp and asset.cpp. A rational
--   number is a pair of natural numbers that a parameter reduces; products of prices wrap in 128 bits;
--   the loops that halve such a number have 64 rounds of fuel, enough for amounts of 63 bits.
-- * Market models libraries/chain/db_market.cpp, market_object.hpp and `pay_fee` of account_object.cpp:
--   the fills, cancellations, matches, bids, fees and `apply_order`. Of `check_call_orders` only the
--   return for an asset that is not market-issued is modelled: which assets are issued, and the rest
--   of it, are parameters. The balances are Permit's; the books are maps by
--   id, and a reference to an order is its id. What `share_type` may take below 0, the supply and
--   `total_core_in_orders`, is an integer; other amounts are natural numbers, and a subtraction that
--   would go below 0, like a failed `assert`, is `undefined`, which no match of two limit orders and
--   no match of a call order and a settlement reaches.
-- * Blocks models libraries/chain/block_database.cpp: the index as a list of entries by block number, and
--   the file of blocks as a list of bytes. Packing, unpacking and the id of a block are parameters.
-- * Proposals models libraries/chain/proposal_evaluator.cpp, proposal_object.cpp, protocol/proposal.cpp,
--   `push_proposal` of db_block.cpp and `clear_expired_proposals` of db_update.cpp, over Authority. The
--   application of one operation is a parameter; the loop has as fuel one more than the number of
--   proposals that have expired.
-- * Base holds what they share: tests and lists over the native numbers, results, maps and integers.
--
-- The undo history serves the chain as a whole: an operation that throws is undone by the session
-- around it, so the evaluators may leave a state half changed.
--
-- An `assert` and an `FC_ASSERT` are guards that end in the error `assertion`; `undefined` is what C++
-- leaves undefined. Not modelled: files, the network, logging, observers and secondary indexes,
-- serialization, and the library fc, of which the hashes, keys and numbers are parameters or exact
-- numbers; margin calls, global settlement, maintenance, credits and the
-- other evaluators; plugins, wallet and programs.
pub mod Base
pub mod Store
pub mod Fork
pub mod Authority
pub mod Assets
pub mod Vesting
pub mod Schedule
pub mod Permit
pub mod Market
pub mod Blocks
pub mod Proposals
