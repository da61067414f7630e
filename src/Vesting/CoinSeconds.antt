-- ===== src/Vesting/CoinSeconds.antt =====
-- The coin seconds of a balance stay below what its whole amount needs, in exact arithmetic.
use karma_core.Base.{
  ℕ, ◌+◌, ◌-◌, ◌*◌, ◌/◌, ◌^◌, ◌≤◌, ◌<◌, min, max, ◌≡◌, leb, if◌then◌else◌, ok, arith,
}
use native.Mathlib.Nat.{mul-le-mul, div-le_of_le-mul, mul_comm}
use karma_core.Vesting.Types.{VestingPolicyContext, CddVestingPolicy}
use karma_core.Assets.{max_share_supply}
use karma_core.Vesting.Policy.{compute_coin_seconds_earned, cdd_allowed}

-- The coin seconds that one unit of the balance needs.
abbrev pub rate : CddVestingPolicy → ℕ
rate p = max p.vesting_seconds 1

-- A policy and the amount of its balance.
pub record IsCapped (p : CddVestingPolicy) (balance : ℕ) : Type 0 where
  pub small : balance ≤ max_share_supply
  pub seconds : p.vesting_seconds < 2 ^ 32
  pub capped : p.coin_seconds_earned ≤ balance * rate p

abbrev pub earned_at : CddVestingPolicy → ℕ → ℕ → ℕ
earned_at p balance now =
    min (p.coin_seconds_earned + balance * (now - p.coin_seconds_earned_last_update))
      (balance * rate p)

abbrev pub big : ℕ
big = max_share_supply * 2 ^ 32

pub product_bound : (b n : ℕ) → b ≤ max_share_supply → n ≤ 2 ^ 32 → b * n ≤ big
product_bound b n h k = mul-le-mul h k

big_bound : big + big < 2 ^ 128
big_bound = omega arith

pub rate_bound : (p : CddVestingPolicy) → p.vesting_seconds < 2 ^ 32 → rate p ≤ 2 ^ 32
rate_bound p h = omega arith

-- No product wraps around.
pub compute_coin_seconds_earned_lem :
    (to_uint64 : ℕ → ℕ) (p : CddVestingPolicy) (ctx : VestingPolicyContext)
    → IsCapped p ctx.balance.amount
    → p.coin_seconds_earned_last_update ≤ ctx.now
    → ctx.now < 2 ^ 32
    → compute_coin_seconds_earned to_uint64 p ctx ≡ ok (earned_at p ctx.balance.amount ctx.now)
unfolding compute_coin_seconds_earned
compute_coin_seconds_earned_lem to_uint64 p ctx c l n =
    let d = ctx.now - p.coin_seconds_earned_last_update in
    let x = product_bound ctx.balance.amount d c.small (omega arith) in
    let y = product_bound ctx.balance.amount (rate p) c.small (rate_bound p c.seconds) in
    let e = c.capped in ground arith

-- What may be withdrawn is never more than the balance.
pub withdraw_available :
    (p : CddVestingPolicy) (balance now : ℕ) → earned_at p balance now / rate p ≤ balance
withdraw_available p balance now =
    div-le_of_le-mul (rate p) (let h = mul_comm balance (rate p) in omega arith)

-- The amount that `cdd_vesting_policy::get_allowed_withdraw` returns.
abbrev pub allowed_at : CddVestingPolicy → ℕ → ℕ → ℕ
allowed_at p balance now = if leb now p.start_claim then 0 else earned_at p balance now / rate p

pub cdd_allowed_lem :
    (to_uint64 : ℕ → ℕ) (p : CddVestingPolicy) (ctx : VestingPolicyContext)
    → ((x : ℕ) → x < 2 ^ 64 → to_uint64 x ≡ x)
    → IsCapped p ctx.balance.amount
    → p.coin_seconds_earned_last_update ≤ ctx.now
    → ctx.now < 2 ^ 32
    → cdd_allowed to_uint64 p ctx
      ≡ ok (record {
        amount = allowed_at p ctx.balance.amount ctx.now;
        asset_id = ctx.balance.asset_id;
      })
unfolding cdd_allowed
cdd_allowed_lem to_uint64 p ctx conv c l n =
    let w = withdraw_available p ctx.balance.amount ctx.now in
    let x = conv (earned_at p ctx.balance.amount ctx.now / rate p) in
    let s = c.small in
    let e = compute_coin_seconds_earned_lem to_uint64 p ctx c l n in ground (arith, e)
