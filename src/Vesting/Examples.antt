-- ===== src/Vesting/Examples.antt =====
-- Tests of the vesting balances, and the theorems about them at a year's schedule.
use karma_core.Base.{ℕ, ◌+◌, ◌%◌, ◌^◌, ◌≤◌, ◌<◌, ◌≡◌, refl, true, ok, err, undefined, arith}
use karma_core.Assets.{Asset, asset_le, asset_eq, asset_lt}
use karma_core.Vesting.Types.{LinearVestingPolicy, CddVestingPolicy, VestingBalance}
use karma_core.Vesting.Policy.{
  linear_allowed, vested_left, total_vested, linear_withdraw_allowed, cdd_allowed,
  cdd_withdraw_allowed, compute_coin_seconds_earned, update_coin_seconds_earned,
  cdd_on_deposit_vested, same_and_below, sum_below_max_shares,
}
use karma_core.Vesting.Balance.{
  policy_withdraw_allowed, is_withdraw_allowed, withdraw, get_allowed_withdraw, is_deposit_allowed,
  deposit_vested, on_deposit_vested,
}
use karma_core.Vesting.CoinSeconds.{IsCapped, allowed_at}
use karma_core.Vesting.Withdraw.{vesting, withdrawn, withdraw-allowed}
use karma_core.Vesting.Twice.{is_withdraw_allowed-withdraw}
use karma_core.Vesting.Deposits.{at_once, deposit_by, deposited, deposit-allowed}
use karma_core.Vesting.Linear.{releasing, IsVesting, linear-get_allowed_withdraw, linear-withdraw}

-- The low word of a 128-bit number.
abbrev low_word : ℕ → ℕ
low_word x = x % 2 ^ 64

low_word_lem : (x : ℕ) → x < 2 ^ 64 → low_word x ≡ x
low_word_lem x h = omega arith

abbrev coins : ℕ → Asset
coins n = record { amount = n; asset_id = 1 }

-- Half of the 1000 coins have been held for the 100 seconds that they need.
abbrev held : CddVestingPolicy
held = record {
  vesting_seconds = 100;
  coin_seconds_earned = 0;
  start_claim = 0;
  coin_seconds_earned_last_update = 1000;
}

held-IsCapped : IsCapped held 1000
held-IsCapped = record { small = omega arith; seconds = omega arith; capped = omega arith }

held_allowed : is_withdraw_allowed low_word (vesting 7 (coins 1000) held) 1050 (coins 300) ≡ ok true
unfolding is_withdraw_allowed policy_withdraw_allowed cdd_withdraw_allowed cdd_allowed
    compute_coin_seconds_earned asset_le asset_eq asset_lt
held_allowed = refl

withdraw-allowed_example :
    (withdraw low_word (vesting 7 (coins 1000) held) 1050 (coins 300)
      ≡ ok (vesting 7 (coins 700) (withdrawn held 1000 1050 300)))
    × (300 ≤ allowed_at held 1000 1050)
    × (300 ≤ 1000)
    × IsCapped (withdrawn held 1000 1050 300) 700
withdraw-allowed_example =
    withdraw-allowed low_word low_word_lem 7 (coins 1000) held 1050 (coins 300) held-IsCapped
      (omega arith) (omega arith) held_allowed

is_withdraw_allowed-withdraw_example :
    (left : VestingBalance) × (withdraw low_word (vesting 7 (coins 1000) held) 1050 (coins 300)
      ≡ ok left)
    × ((more : ℕ)
        → is_withdraw_allowed low_word left 1050 (coins more)
          ≡ is_withdraw_allowed low_word (vesting 7 (coins 1000) held) 1050 (coins (300 + more)))
is_withdraw_allowed-withdraw_example =
    is_withdraw_allowed-withdraw low_word low_word_lem 7 (coins 1000) held 1050 (coins 300)
      held-IsCapped (omega arith) (omega arith) held_allowed

held_deposit : is_deposit_allowed low_word (vesting 7 (coins 1000) held) 1050 (coins 50) ≡ true
unfolding is_deposit_allowed same_and_below sum_below_max_shares
held_deposit = refl

deposit-allowed_example :
    (deposit_by low_word at_once (vesting 7 (coins 1000) held) 1050 (coins 50)
      ≡ ok (vesting 7 (coins 1050) (deposited at_once held 1000 1050 50)))
    × IsCapped (deposited at_once held 1000 1050 50) 1050
    × (allowed_at (deposited at_once held 1000 1050 50) 1050 1050 ≡ allowed_at held 1000 1050 + 50)
deposit-allowed_example =
    deposit-allowed low_word low_word_lem 7 (coins 1000) held 1050 (coins 50) held-IsCapped
      (omega arith) (omega arith) at_once held_deposit (omega arith) (omega arith)

-- Ten million coins with five decimals that vest in half a year do not fit.
abbrev half_year : CddVestingPolicy
half_year = record held { vesting_seconds = 15768000 }

deposit_overflows :
    deposit_vested low_word (vesting 7 (coins 0) half_year) 1050 (coins 1000000000000)
    ≡ err undefined
unfolding deposit_vested on_deposit_vested cdd_on_deposit_vested update_coin_seconds_earned
    compute_coin_seconds_earned
deposit_overflows = refl

abbrev yearly : LinearVestingPolicy
yearly = record {
  begin_timestamp = 1000;
  vesting_cliff_seconds = 10;
  vesting_duration_seconds = 100;
  begin_balance = 5000;
}

yearly-IsVesting : IsVesting yearly 1020 4500
yearly-IsVesting = record {
  small = omega arith;
  short = omega arith;
  within = omega arith;
  covered = omega arith;
}

linear-get_allowed_withdraw_example :
    get_allowed_withdraw low_word (releasing 7 (coins 4500) yearly) 1040 ≡ ok (coins 1500)
linear-get_allowed_withdraw_example =
    linear-get_allowed_withdraw low_word low_word_lem 7 (coins 4500) yearly 1020 1040 (coins 1200)
      yearly-IsVesting (omega arith)

yearly_allowed :
    is_withdraw_allowed low_word (releasing 7 (coins 4500) yearly) 1040 (coins 1200) ≡ ok true
unfolding is_withdraw_allowed policy_withdraw_allowed linear_withdraw_allowed linear_allowed
    vested_left total_vested asset_le asset_eq asset_lt
yearly_allowed = refl

linear-withdraw_example :
    (withdraw low_word (releasing 7 (coins 4500) yearly) 1040 (coins 1200)
      ≡ ok (releasing 7 (coins 3300) yearly))
    × (1200 ≤ 4500)
    × IsVesting yearly 1040 3300
linear-withdraw_example =
    linear-withdraw low_word low_word_lem 7 (coins 4500) yearly 1020 1040 (coins 1200)
      yearly-IsVesting (omega arith) yearly_allowed
