-- ===== src/Vesting/Deposits.antt =====
-- What the two kinds of deposit do to a balance of coin seconds.
use karma_core.Base.{ℕ, ◌+◌, ◌*◌, ◌/◌, ◌^◌, ◌≤◌, ◌<◌, ◌≡◌, true, Result, ok, arith, ap}
use native.Mathlib.Nat.{add-mul-div_right}
use karma_core.Assets.{Asset, asset_add, max_share_supply}
use karma_core.Vesting.Types.{CddVestingPolicy, VestingBalance}
use karma_core.Vesting.Policy.{cdd_on_deposit_vested, same_and_below, sum_below_max_shares}
use karma_core.Vesting.Balance.{
  deposit, on_deposit, deposit_vested, on_deposit_vested, is_deposit_allowed,
}
use karma_core.Vesting.CoinSeconds.{
  rate, IsCapped, earned_at, allowed_at, product_bound, rate_bound,
}
use karma_core.Vesting.Withdraw.{vesting, updated, no_time}

-- A deposit of either kind.
pub data Deposit : Type 0 where
  to_vest at_once : Deposit

abbrev pub deposit_by : (ℕ → ℕ) → Deposit → VestingBalance → ℕ → Asset → Result VestingBalance
deposit_by to_uint64 to_vest v now amount = deposit to_uint64 v now amount
deposit_by to_uint64 at_once v now amount = deposit_vested to_uint64 v now amount

-- The coin seconds that a deposit brings.
abbrev pub brought : Deposit → CddVestingPolicy → ℕ → ℕ
brought to_vest p amount = 0
brought at_once p amount = amount * rate p

abbrev pub matured : Deposit → ℕ → ℕ
matured to_vest amount = 0
matured at_once amount = amount

plus_zero : (e : ℕ) → e + 0 ≡ e
plus_zero e = omega arith

brought_div :
    (d : Deposit) (p : CddVestingPolicy) (e amount : ℕ)
    → (e + brought d p amount) / rate p ≡ e / rate p + matured d amount
brought_div to_vest p e amount = let x = ap (λ t. t / rate p) (plus_zero e) in omega arith
brought_div at_once p e amount = add-mul-div_right e amount (omega arith)

brought_bound :
    (d : Deposit) (p : CddVestingPolicy) (amount : ℕ) → brought d p amount ≤ amount * rate p
brought_bound to_vest p amount = omega arith
brought_bound at_once p amount = omega arith

plus_product : (b a r : ℕ) → (b + a) * r ≡ b * r + a * r
plus_product b a r = omega arith

-- The policy of a balance, by its amount, after a deposit at a time.
abbrev pub deposited : Deposit → CddVestingPolicy → ℕ → ℕ → ℕ → CddVestingPolicy
deposited d p balance now amount = record p {
  coin_seconds_earned = earned_at p balance now + brought d p amount;
  coin_seconds_earned_last_update = now;
}

module _ (to_uint64 : ℕ → ℕ) (conv : (x : ℕ) → x < 2 ^ 64 → to_uint64 x ≡ x) (owner : ℕ)
    (balance : Asset) (p : CddVestingPolicy) (now : ℕ) (amount : Asset)
    (c : IsCapped p balance.amount) (l : p.coin_seconds_earned_last_update ≤ now)
    (n : now < 2 ^ 32) where
  deposit_fits :
      is_deposit_allowed to_uint64 (vesting owner balance p) now amount ≡ true
      → (amount.asset_id ≡ balance.asset_id) × (balance.amount + amount.amount ≤ max_share_supply)
  unfolding is_deposit_allowed same_and_below sum_below_max_shares
  deposit_fits h = (ground arith, ground arith)

  deposited-IsCapped :
      (d : Deposit)
      → balance.amount + amount.amount ≤ max_share_supply
      → IsCapped (deposited d p balance.amount now amount.amount) (balance.amount + amount.amount)
  deposited-IsCapped d s = record {
    small = s;
    seconds = c.seconds;
    capped =
        let x = plus_product balance.amount amount.amount (rate p) in
        let y = brought_bound d p amount.amount in omega arith;
  }

  deposit_by_lem :
      (d : Deposit)
      → amount.asset_id ≡ balance.asset_id
      → balance.amount + amount.amount ≤ max_share_supply
      → brought d p amount.amount < 2 ^ 63
      → deposit_by to_uint64 d (vesting owner balance p) now amount
        ≡ ok (
            vesting owner
              (record balance { amount = balance.amount + amount.amount })
              (deposited d p balance.amount now amount.amount))
  unfolding deposit on_deposit deposit_vested on_deposit_vested cdd_on_deposit_vested asset_add
  deposit_by_lem to_vest i s b =
      let x = plus_zero (earned_at p balance.amount now) in
      ground (arith, updated to_uint64 conv owner balance p now amount c l n)
  deposit_by_lem at_once i s b =
      let y = product_bound balance.amount (rate p) c.small (rate_bound p c.seconds) in
      ground (arith, updated to_uint64 conv owner balance p now amount c l n)

  earned_at-deposited :
      (d : Deposit)
      → earned_at
          (deposited d p balance.amount now amount.amount)
          (balance.amount + amount.amount)
          now
        ≡ earned_at p balance.amount now + brought d p amount.amount
  earned_at-deposited d =
      let x = plus_product balance.amount amount.amount (rate p) in
      let y = brought_bound d p amount.amount in
      let z = no_time (balance.amount + amount.amount) now in omega arith

  allowed_at-deposited :
      (d : Deposit)
      → p.start_claim < now
      → allowed_at
          (deposited d p balance.amount now amount.amount)
          (balance.amount + amount.amount)
          now
        ≡ allowed_at p balance.amount now + matured d amount.amount
  allowed_at-deposited d s =
      let x = brought_div d p (earned_at p balance.amount now) amount.amount in
      rw (earned_at-deposited d) (ground arith)

  -- A deposit that is allowed, of an amount whose coin seconds fit in 63 bits where it vests at once,
  -- succeeds at a time not before the last update and after the start of the claims: the balance gains
  -- the amount, the coin seconds stay within what the new balance needs, and the withdrawal that is
  -- allowed grows by the whole amount if it vests at once and by nothing otherwise. The balance is at
  -- most the greatest supply and times have 32 bits.
  pub deposit-allowed :
      (d : Deposit)
      → is_deposit_allowed to_uint64 (vesting owner balance p) now amount ≡ true
      → brought d p amount.amount < 2 ^ 63
      → p.start_claim < now
      → (deposit_by to_uint64 d (vesting owner balance p) now amount
          ≡ ok (
              vesting owner
                (record balance { amount = balance.amount + amount.amount })
                (deposited d p balance.amount now amount.amount)))
        × IsCapped (deposited d p balance.amount now amount.amount) (balance.amount + amount.amount)
        × (allowed_at
              (deposited d p balance.amount now amount.amount)
              (balance.amount + amount.amount)
              now
            ≡ allowed_at p balance.amount now + matured d amount.amount)
  deposit-allowed d h b st =
      let (i, s) = deposit_fits h in
      (deposit_by_lem d i s b, deposited-IsCapped d s, allowed_at-deposited d st)
