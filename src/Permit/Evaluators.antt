-- ===== src/Permit/Evaluators.antt =====
-- The four evaluators. `do_apply` runs after `do_evaluate` of the same operation on the same state.
use karma_core.Base.{
  ℕ, ◌+◌, ◌-◌, ◌*◌, ◌/◌, ◌%◌, ◌^◌, ◌||◌, not, Option, none, some, ltb, leb, ◌==◌, if◌then◌else◌,
  is_some, Result, ok, guard, or_fail, assertion, undefined, ◌>>=◌, ◌>>◌,
}
use karma_core.Base.Int.{pos}
use karma_core.Permit.Types.{Permit, Chain, is_authorized_asset, available_this_period}
use karma_core.Permit.Balances.{get_balance, adjust_balance, debit}

-- `withdraw_permission_create_operation`, and `_update_` with the permit that it updates.
pub record Terms : Type 0 where
  pub withdraw_from_account : ℕ
  pub authorized_account : ℕ
  pub limit : ℕ
  pub limit_asset : ℕ
  pub withdrawal_period_sec : ℕ
  pub periods_until_expiration : ℕ
  pub period_start_time : ℕ

-- `withdraw_permission_claim_operation`
pub record ClaimOperation : Type 0 where
  pub withdraw_permission : ℕ
  pub withdraw_from_account : ℕ
  pub withdraw_to_account : ℕ
  pub amount : ℕ
  pub asset_id : ℕ

-- The end of the last period, in 32 bits.
abbrev pub expiration_of : Terms → ℕ
expiration_of op =
    (op.period_start_time + op.periods_until_expiration * op.withdrawal_period_sec % 2 ^ 32)
    % 2 ^ 32

abbrev pub set_permit : ℕ → Option Permit → Chain → Chain
set_permit id p d = record d { permits = λ j. if j == id then p else d.permits j }

unfoldable pub create_evaluate : Terms → Chain → Result (Unit {0})
create_evaluate op d = do
  guard (is_some (d.accounts op.withdraw_from_account)) assertion
  guard (is_some (d.accounts op.authorized_account)) assertion
  guard (is_some (d.assets op.limit_asset)) assertion
  guard (ltb d.head_block_time op.period_start_time) assertion
  guard (ltb d.head_block_time (expiration_of op)) assertion
  guard (leb d.block_interval op.withdrawal_period_sec) assertion

unfoldable pub create_apply : Terms → Chain → Chain
create_apply op d =
    record (set_permit d.next_permit
      (some (record {
        withdraw_from_account = op.withdraw_from_account;
        authorized_account = op.authorized_account;
        limit = op.limit;
        limit_asset = op.limit_asset;
        withdrawal_period_sec = op.withdrawal_period_sec;
        period_start_time = op.period_start_time;
        expiration = expiration_of op;
        claimed_this_period = 0;
      }))
      d) { next_permit = d.next_permit + 1 }

abbrev pub hardfork_23_time : ℕ
hardfork_23_time = 1512747600

unfoldable pub claim_evaluate : ClaimOperation → Chain → Result (Unit {0})
claim_evaluate op d = do
  permit ← or_fail (d.permits op.withdraw_permission) assertion
  guard (ltb d.head_block_time permit.expiration) assertion
  guard (permit.authorized_account == op.withdraw_to_account) assertion
  guard (permit.withdraw_from_account == op.withdraw_from_account) assertion
  guard (ltb d.head_block_time hardfork_23_time || leb permit.period_start_time d.head_block_time)
      assertion
  guard (op.asset_id == permit.limit_asset) assertion
  guard (leb op.amount (available_this_period permit d.head_block_time)) assertion
  guard (leb op.amount (get_balance op.withdraw_from_account op.asset_id d.balances)) assertion
  asset ← or_fail (d.assets op.asset_id) assertion
  guard
      (not asset.transfer_restricted
        || (asset.issuer == permit.authorized_account)
        || (asset.issuer == permit.withdraw_from_account))
      assertion
  from ← or_fail (d.accounts op.withdraw_to_account) assertion
  to ← or_fail (d.accounts permit.authorized_account) assertion
  guard (is_authorized_asset d.head_block_time to asset) assertion
  guard (is_authorized_asset d.head_block_time from asset) assertion

-- Whole periods since the start, or until it where it lies ahead; the quotient rounds to 0.
abbrev pub periods : Permit → ℕ → ℕ
periods p now =
    if leb p.period_start_time now
    then (now - p.period_start_time) / p.withdrawal_period_sec
    else (p.period_start_time - now) / p.withdrawal_period_sec

unfoldable pub advance : Permit → ℕ → ℕ → Permit
advance p now amount = record p {
  period_start_time =
      (if leb p.period_start_time now
        then p.period_start_time + periods p now * p.withdrawal_period_sec
        else p.period_start_time - periods p now * p.withdrawal_period_sec)
      % 2 ^ 32;
  claimed_this_period = if periods p now == 0 then p.claimed_this_period + amount else amount;
}

-- A permit's period is validated to be positive.
unfoldable pub claim_apply : ClaimOperation → Chain → Result Chain
claim_apply op d = do
  permit ← or_fail (d.permits op.withdraw_permission) assertion
  guard (ltb 0 permit.withdrawal_period_sec) undefined
  let changed =
      set_permit op.withdraw_permission (some (advance permit d.head_block_time op.amount)) d
  rows ← adjust_balance op.withdraw_from_account op.asset_id (debit op.amount) d.balances
  rows' ← adjust_balance op.withdraw_to_account op.asset_id (pos op.amount) rows
  ok (record changed { balances = rows' })

unfoldable pub update_evaluate : ℕ → Terms → Chain → Result (Unit {0})
update_evaluate id op d = do
  permit ← or_fail (d.permits id) assertion
  guard (permit.authorized_account == op.authorized_account) assertion
  guard (permit.withdraw_from_account == op.withdraw_from_account) assertion
  guard (is_some (d.assets op.limit_asset)) assertion
  guard (leb d.head_block_time op.period_start_time) assertion
  guard (ltb d.head_block_time (expiration_of op)) assertion
  guard (leb d.block_interval op.withdrawal_period_sec) assertion

unfoldable pub update_apply : ℕ → Terms → Chain → Result Chain
update_apply id op d = do
  permit ← or_fail (d.permits id) assertion
  ok (
      set_permit id
        (some (record permit {
          period_start_time = op.period_start_time;
          expiration = expiration_of op;
          limit = op.limit;
          limit_asset = op.limit_asset;
          withdrawal_period_sec = op.withdrawal_period_sec;
        }))
        d)

unfoldable pub delete_evaluate : ℕ → ℕ → ℕ → Chain → Result (Unit {0})
delete_evaluate id authorized_account withdraw_from_account d = do
  permit ← or_fail (d.permits id) assertion
  guard (permit.authorized_account == authorized_account) assertion
  guard (permit.withdraw_from_account == withdraw_from_account) assertion

unfoldable pub delete_apply : ℕ → Chain → Result Chain
delete_apply id d = or_fail (d.permits id) assertion >>= λ permit. ok (set_permit id none d)
