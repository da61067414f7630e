-- ===== src/Vesting/Linear.antt =====
-- A linear policy against the schedule it stands for.
use karma_core.Base.{ℕ, ◌-◌, ◌*◌, ◌/◌, ◌^◌, ◌≤◌, ◌<◌, ◌≡◌, true, ltb, leb, if◌then◌else◌, ok, arith}
use native.Mathlib.Nat.{
  mul-le-mul_left, div-le_of_le-mul, mul_comm, le-div_iff_mul-le, div-mul-le_self,
}
use karma_core.Assets.{Asset, asset_le, asset_eq, asset_lt, asset_sub, max_share_supply}
use karma_core.Vesting.Types.{LinearVestingPolicy, linear, VestingBalance}
use karma_core.Vesting.Policy.{total_vested, vested_left, linear_allowed, linear_withdraw_allowed}
use karma_core.Vesting.Balance.{
  context, policy_withdraw_allowed, is_withdraw_allowed, withdraw, on_withdraw,
  get_allowed_withdraw,
}
use karma_core.Vesting.CoinSeconds.{product_bound}

-- What has vested by a time: nothing before the cliff, then in proportion to the time, then all.
abbrev pub vested : LinearVestingPolicy → ℕ → ℕ
vested p now =
    if leb now p.begin_timestamp
    then 0
    else if ltb (now - p.begin_timestamp) p.vesting_cliff_seconds
    then 0
    else if ltb (now - p.begin_timestamp) p.vesting_duration_seconds
    then p.begin_balance * (now - p.begin_timestamp) / p.vesting_duration_seconds
    else p.begin_balance

div_mono : (a b d : ℕ) → 0 < d → a ≤ b → a / d ≤ b / d
div_mono a b d h k = (le-div_iff_mul-le h).1 (let x = div-mul-le_self a d in omega arith)

part_le : (b e d : ℕ) → e ≤ d → b * e / d ≤ b
part_le b e d h =
    div-le_of_le-mul d (let x = mul-le-mul_left b h in let y = mul_comm b d in omega arith)

part_mono : (b e f d : ℕ) → 0 < d → e ≤ f → b * e / d ≤ b * f / d
part_mono b e f d h k = div_mono (b * e) (b * f) d h (mul-le-mul_left b k)

vested_le : (p : LinearVestingPolicy) (now : ℕ) → vested p now ≤ p.begin_balance
vested_le p now =
    let x = part_le p.begin_balance (now - p.begin_timestamp) p.vesting_duration_seconds in
    ground arith

-- What has vested stays vested.
pub vested_mono : (p : LinearVestingPolicy) (t now : ℕ) → t ≤ now → vested p t ≤ vested p now
vested_mono p t now h =
    let e = t - p.begin_timestamp in
    let f = now - p.begin_timestamp in
    let x = part_le p.begin_balance e p.vesting_duration_seconds in
    let y = part_mono p.begin_balance e f p.vesting_duration_seconds in ground arith

-- A balance from which at most what has vested was withdrawn.
pub record IsVesting (p : LinearVestingPolicy) (now balance : ℕ) : Type 0 where
  pub small : p.begin_balance ≤ max_share_supply
  pub short : p.vesting_duration_seconds < 2 ^ 32
  pub within : balance ≤ p.begin_balance
  pub covered : p.begin_balance - balance ≤ vested p now

abbrev pub releasing : ℕ → Asset → LinearVestingPolicy → VestingBalance
releasing owner balance p = record { owner = owner; balance = balance; policy = linear p }

module _ (to_uint64 : ℕ → ℕ) (conv : (x : ℕ) → x < 2 ^ 64 → to_uint64 x ≡ x) (owner : ℕ)
    (balance : Asset) (p : LinearVestingPolicy) (t now : ℕ) (amount : Asset)
    (v : IsVesting p t balance.amount) (l : t ≤ now) where
  total_vested_lem : total_vested to_uint64 p (now - p.begin_timestamp) ≡ (
      if ltb (now - p.begin_timestamp) p.vesting_duration_seconds
      then p.begin_balance * (now - p.begin_timestamp) / p.vesting_duration_seconds
      else p.begin_balance)
  unfolding total_vested
  total_vested_lem =
      let e = now - p.begin_timestamp in
      let s = v.small in
      let d = v.short in
      let y = part_le p.begin_balance e p.vesting_duration_seconds in
      let x = product_bound p.begin_balance e v.small in
      let z = conv (p.begin_balance * e / p.vesting_duration_seconds) in ground arith

  -- `linear_allowed` is what has vested and was not withdrawn.
  linear_allowed_lem :
      linear_allowed to_uint64 p (context (releasing owner balance p) now amount)
      ≡ ok (record {
        amount = vested p now - (p.begin_balance - balance.amount);
        asset_id = balance.asset_id;
      })
  unfolding linear_allowed vested_left
  linear_allowed_lem =
      let m = vested_mono p t now l in
      let w = v.within in let k = v.covered in ground (arith, total_vested_lem)

  linear_fits :
      is_withdraw_allowed to_uint64 (releasing owner balance p) now amount ≡ ok true
      → (amount.asset_id ≡ balance.asset_id)
        × (amount.amount ≤ vested p now - (p.begin_balance - balance.amount))
        × (amount.amount ≤ balance.amount)
  unfolding is_withdraw_allowed policy_withdraw_allowed linear_withdraw_allowed asset_le asset_eq
      asset_lt
  linear_fits h = (
    ground (arith, linear_allowed_lem),
    ground (arith, linear_allowed_lem),
    ground (arith, linear_allowed_lem),
  )

  -- From a linear balance from which at most what had vested at an earlier time was withdrawn,
  -- `get_allowed_withdraw` is what has vested now less what was withdrawn. The begin balance is at most
  -- the greatest supply, the duration has 32 bits, and a number of 64 bits is converted to itself.
  pub linear-get_allowed_withdraw :
      get_allowed_withdraw to_uint64 (releasing owner balance p) now
      ≡ ok (record {
        amount = vested p now - (p.begin_balance - balance.amount);
        asset_id = balance.asset_id;
      })
  unfolding get_allowed_withdraw linear_allowed
  linear-get_allowed_withdraw = linear_allowed_lem

  -- From a linear balance from which at most what had vested at an earlier time was withdrawn, a
  -- withdrawal for which `is_withdraw_allowed` says yes succeeds, lowers the balance by the amount, which
  -- it does not exceed, and leaves at most what has vested now withdrawn. The begin balance is at most
  -- the greatest supply, the duration has 32 bits, and a number of 64 bits is converted to itself.
  pub linear-withdraw :
      is_withdraw_allowed to_uint64 (releasing owner balance p) now amount ≡ ok true
      → (withdraw to_uint64 (releasing owner balance p) now amount
          ≡ ok (releasing owner (record balance { amount = balance.amount - amount.amount }) p))
        × (amount.amount ≤ balance.amount)
        × IsVesting p now (balance.amount - amount.amount)
  unfolding withdraw on_withdraw asset_le asset_eq asset_lt asset_sub
  linear-withdraw h =
      let (i, a, b) = linear_fits h in
      (
        ground arith,
        b,
        record {
          small = v.small;
          short = v.short;
          within = let w = v.within in omega arith;
          covered =
              let w = v.within in let m = vested_mono p t now l in let k = v.covered in omega arith;
        },
      )
