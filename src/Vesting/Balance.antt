-- ===== src/Vesting/Balance.antt =====
-- The methods of `vesting_balance_object`, which visit its policy.
use karma_core.Base.{ℕ, Bool, false, ◌||◌, not, Result, ok, err, guard, assertion, ◌>>=◌, ◌>>◌}
use karma_core.Assets.{Asset, asset_le, asset_add, asset_sub}
use karma_core.Vesting.Types.{VestingPolicyContext, VestingPolicy, linear, cdd, VestingBalance}
use karma_core.Vesting.Policy.{
  same_and_below, linear_allowed, linear_withdraw_allowed, cdd_allowed, cdd_withdraw_allowed,
  update_coin_seconds_earned, cdd_on_deposit_vested, cdd_on_withdraw,
}

abbrev pub context : VestingBalance → ℕ → Asset → VestingPolicyContext
context v now amount = record { balance = v.balance; now = now; amount = amount }

module _ (to_uint64 : ℕ → ℕ) where
  unfoldable pub on_deposit : VestingPolicy → VestingPolicyContext → Result VestingPolicy
  on_deposit (linear p) ctx = ok (linear p)
  on_deposit (cdd p) ctx = update_coin_seconds_earned to_uint64 p ctx >>= λ q. ok (cdd q)

  -- A linear balance throws.
  unfoldable pub on_deposit_vested : VestingPolicy → VestingPolicyContext → Result VestingPolicy
  on_deposit_vested (linear p) ctx = err assertion
  on_deposit_vested (cdd p) ctx = cdd_on_deposit_vested to_uint64 p ctx >>= λ q. ok (cdd q)

  unfoldable pub on_withdraw : VestingPolicy → VestingPolicyContext → Result VestingPolicy
  on_withdraw (linear p) ctx = ok (linear p)
  on_withdraw (cdd p) ctx = cdd_on_withdraw to_uint64 p ctx >>= λ q. ok (cdd q)

  unfoldable pub is_deposit_allowed : VestingBalance → ℕ → Asset → Bool
  is_deposit_allowed v now amount = same_and_below (context v now amount)

  unfoldable pub is_deposit_vested_allowed : VestingBalance → ℕ → Asset → Bool
  is_deposit_vested_allowed v now amount = elim v.policy [
    | linear p ↦ false
    | cdd p ↦ same_and_below (context v now amount)
  ]

  unfoldable pub policy_withdraw_allowed : VestingPolicy → VestingPolicyContext → Result Bool
  policy_withdraw_allowed (linear p) ctx = linear_withdraw_allowed to_uint64 p ctx
  policy_withdraw_allowed (cdd p) ctx = cdd_withdraw_allowed to_uint64 p ctx

  unfoldable pub is_withdraw_allowed : VestingBalance → ℕ → Asset → Result Bool
  unfolding policy_withdraw_allowed
  is_withdraw_allowed v now amount =
      policy_withdraw_allowed v.policy (context v now amount) >>= λ result.
      asset_le amount v.balance >>= λ fits. guard (fits || not result) assertion >> ok result

  unfoldable pub deposit : VestingBalance → ℕ → Asset → Result VestingBalance
  unfolding on_deposit
  deposit v now amount = on_deposit v.policy (context v now amount) >>= λ policy.
      asset_add v.balance amount >>= λ balance. ok (record v { policy = policy; balance = balance })

  unfoldable pub deposit_vested : VestingBalance → ℕ → Asset → Result VestingBalance
  unfolding on_deposit_vested
  deposit_vested v now amount = on_deposit_vested v.policy (context v now amount) >>= λ policy.
      asset_add v.balance amount >>= λ balance. ok (record v { policy = policy; balance = balance })

  unfoldable pub withdraw : VestingBalance → ℕ → Asset → Result VestingBalance
  unfolding on_withdraw
  withdraw v now amount = asset_le amount v.balance >>= λ fits.
      guard fits assertion
      >> (on_withdraw v.policy (context v now amount) >>= λ policy.
          asset_sub v.balance amount >>= λ balance.
          ok (record v { policy = policy; balance = balance }))

  unfoldable pub get_allowed_withdraw : VestingBalance → ℕ → Result Asset
  get_allowed_withdraw v now = elim v.policy [
    | linear p ↦ linear_allowed to_uint64 p (context v now (record { amount = 0; asset_id = 0 }))
    | cdd p ↦ cdd_allowed to_uint64 p (context v now (record { amount = 0; asset_id = 0 }))
  ]
