-- ===== src/Vesting/Types.antt =====
-- Vesting policies (vesting_balance_object.hpp).
use karma_core.Base.{ℕ}
use karma_core.Assets.{Asset}

pub record VestingPolicyContext : Type 0 where
  pub balance : Asset
  pub now : ℕ
  pub amount : Asset

pub record LinearVestingPolicy : Type 0 where
  pub begin_timestamp : ℕ
  pub vesting_cliff_seconds : ℕ
  pub vesting_duration_seconds : ℕ
  pub begin_balance : ℕ

pub record CddVestingPolicy : Type 0 where
  pub vesting_seconds : ℕ
  pub coin_seconds_earned : ℕ
  pub start_claim : ℕ
  pub coin_seconds_earned_last_update : ℕ

-- The `static_variant` of the two.
pub data VestingPolicy : Type 0 where
  linear : LinearVestingPolicy → VestingPolicy
  cdd : CddVestingPolicy → VestingPolicy

pub record VestingBalance : Type 0 where
  pub owner : ℕ
  pub balance : Asset
  pub policy : VestingPolicy
