-- ===== src/Vesting/Policy.antt =====
-- The two policies' methods. An `assert` is a guard, as in a build that keeps it.
use karma_core.Base.{
  ℕ, ◌+◌, ◌-◌, ◌*◌, ◌/◌, ◌%◌, ◌^◌, min, max, Bool, true, false, ◌&&◌, ltb, leb, ◌==◌, if◌then◌else◌,
  Result, ok, guard, assertion, undefined, ◌>>=◌, ◌>>◌,
}
use karma_core.Assets.{Asset, asset_le, max_share_supply}
use karma_core.Vesting.Types.{VestingPolicyContext, LinearVestingPolicy, CddVestingPolicy}

unfoldable pub sum_below_max_shares : Asset → Asset → Bool
sum_below_max_shares a b =
    leb a.amount max_share_supply
    && leb b.amount max_share_supply
    && leb (a.amount + b.amount) max_share_supply

-- `is_deposit_allowed` of either policy.
unfoldable pub same_and_below : VestingPolicyContext → Bool
unfolding sum_below_max_shares
same_and_below ctx =
    (ctx.amount.asset_id == ctx.balance.asset_id) && sum_below_max_shares ctx.amount ctx.balance

-- `to_uint64` is the conversion of a 128-bit number.
module _ (to_uint64 : ℕ → ℕ) where
  unfoldable pub total_vested : LinearVestingPolicy → ℕ → ℕ
  total_vested p elapsed_seconds =
      if ltb elapsed_seconds p.vesting_duration_seconds
      then to_uint64 ((p.begin_balance * elapsed_seconds) % 2 ^ 128 / p.vesting_duration_seconds)
      else p.begin_balance

  -- What is vested, less what was withdrawn. In C++ a difference below 0 fails the assertion on it.
  unfoldable pub vested_left : LinearVestingPolicy → ℕ → ℕ → Result ℕ
  unfolding total_vested
  vested_left p elapsed_seconds balance =
      guard (leb balance p.begin_balance) assertion
      >> (guard (leb (p.begin_balance - balance) (total_vested p elapsed_seconds)) assertion
          >> ok (total_vested p elapsed_seconds - (p.begin_balance - balance)))

  -- `linear_vesting_policy::get_allowed_withdraw`
  unfoldable pub linear_allowed : LinearVestingPolicy → VestingPolicyContext → Result Asset
  unfolding vested_left
  linear_allowed p ctx =
      (elim (ltb p.begin_timestamp ctx.now) [
        | false ↦ ok 0
        | true ↦ elim (leb p.vesting_cliff_seconds (ctx.now - p.begin_timestamp)) [
          | false ↦ ok 0
          | true ↦ vested_left p (ctx.now - p.begin_timestamp) ctx.balance.amount
        ]
      ])
      >>= λ allowed. ok (record { amount = allowed; asset_id = ctx.balance.asset_id })

  -- `linear_vesting_policy::is_withdraw_allowed`
  unfoldable pub linear_withdraw_allowed : LinearVestingPolicy → VestingPolicyContext → Result Bool
  unfolding linear_allowed
  linear_withdraw_allowed p ctx = elim (ctx.amount.asset_id == ctx.balance.asset_id) [
    | false ↦ ok false
    | true ↦ linear_allowed p ctx >>= asset_le ctx.amount
  ]

  -- `cdd_vesting_policy::compute_coin_seconds_earned`, in 128 bits.
  unfoldable pub compute_coin_seconds_earned : CddVestingPolicy → VestingPolicyContext → Result ℕ
  compute_coin_seconds_earned p ctx =
      guard (leb p.coin_seconds_earned_last_update ctx.now) assertion
      >> ok (
          min
            ((p.coin_seconds_earned
                + ctx.balance.amount * (ctx.now - p.coin_seconds_earned_last_update) % 2 ^ 128)
              % 2 ^ 128)
            (ctx.balance.amount * max p.vesting_seconds 1 % 2 ^ 128))

  unfoldable pub update_coin_seconds_earned :
      CddVestingPolicy → VestingPolicyContext → Result CddVestingPolicy
  unfolding compute_coin_seconds_earned
  update_coin_seconds_earned p ctx = compute_coin_seconds_earned p ctx >>= λ earned.
      ok (record p { coin_seconds_earned = earned; coin_seconds_earned_last_update = ctx.now })

  -- `cdd_vesting_policy::get_allowed_withdraw`
  unfoldable pub cdd_allowed : CddVestingPolicy → VestingPolicyContext → Result Asset
  unfolding compute_coin_seconds_earned
  cdd_allowed p ctx = elim (leb ctx.now p.start_claim) [
    | true ↦ ok (record { amount = 0; asset_id = ctx.balance.asset_id })
    | false ↦ compute_coin_seconds_earned p ctx >>= λ cs_earned.
        guard (leb (cs_earned / max p.vesting_seconds 1) ctx.balance.amount) assertion
        >> ok (record {
          amount = to_uint64 (cs_earned / max p.vesting_seconds 1);
          asset_id = ctx.balance.asset_id;
        })
  ]

  -- `cdd_vesting_policy::is_withdraw_allowed`
  unfoldable pub cdd_withdraw_allowed : CddVestingPolicy → VestingPolicyContext → Result Bool
  unfolding cdd_allowed
  cdd_withdraw_allowed p ctx = cdd_allowed p ctx >>= asset_le ctx.amount

  -- `cdd_vesting_policy::on_deposit_vested`. The product has 64 signed bits.
  unfoldable pub cdd_on_deposit_vested :
      CddVestingPolicy → VestingPolicyContext → Result CddVestingPolicy
  unfolding update_coin_seconds_earned
  cdd_on_deposit_vested p ctx = update_coin_seconds_earned p ctx >>= λ q.
      guard (ltb (ctx.amount.amount * max q.vesting_seconds 1) (2 ^ 63)) undefined
      >> ok (record q {
        coin_seconds_earned =
            (q.coin_seconds_earned + ctx.amount.amount * max q.vesting_seconds 1) % 2 ^ 128;
      })

  -- `cdd_vesting_policy::on_withdraw`
  unfoldable pub cdd_on_withdraw : CddVestingPolicy → VestingPolicyContext → Result CddVestingPolicy
  unfolding update_coin_seconds_earned
  cdd_on_withdraw p ctx = update_coin_seconds_earned p ctx >>= λ q.
      guard (leb (ctx.amount.amount * max q.vesting_seconds 1 % 2 ^ 128) q.coin_seconds_earned)
        assertion
      >> ok (record q {
        coin_seconds_earned =
            q.coin_seconds_earned - ctx.amount.amount * max q.vesting_seconds 1 % 2 ^ 128;
      })
