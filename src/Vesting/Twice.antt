-- ===== src/Vesting/Twice.antt =====
-- Two withdrawals of coin seconds at one time.
use karma_core.Base.{ℕ, ◌+◌, ◌-◌, ◌^◌, ◌≤◌, ◌<◌, ◌≡◌, true, ok, arith, leb, refl}
use karma_core.Assets.{Asset}
use karma_core.Vesting.Types.{CddVestingPolicy, VestingBalance}
use karma_core.Vesting.Balance.{is_withdraw_allowed, withdraw}
use karma_core.Vesting.CoinSeconds.{IsCapped, allowed_at}
use karma_core.Vesting.Withdraw.{
  vesting, withdrawn, withdraw-allowed, allowed_at-withdrawn, is_withdraw_allowed_lem,
}

module _ (to_uint64 : ℕ → ℕ) (conv : (x : ℕ) → x < 2 ^ 64 → to_uint64 x ≡ x) (owner : ℕ)
    (balance : Asset) (p : CddVestingPolicy) (now : ℕ) (amount : Asset)
    (c : IsCapped p balance.amount) (l : p.coin_seconds_earned_last_update ≤ now)
    (n : now < 2 ^ 32) where
  -- After a withdrawal that `is_withdraw_allowed` says yes to, it says yes to another amount at the same
  -- time exactly where, before the withdrawal, it would have said yes to both amounts together. Before
  -- the withdrawal, at a time not before the last update, the coin seconds are within what the balance
  -- needs, the balance is at most the greatest supply, times have 32 bits, and a number of 64 bits is
  -- converted to itself.
  pub is_withdraw_allowed-withdraw :
      is_withdraw_allowed to_uint64 (vesting owner balance p) now amount ≡ ok true
      → (left : VestingBalance) × (withdraw to_uint64 (vesting owner balance p) now amount
          ≡ ok left)
        × ((more : ℕ)
            → is_withdraw_allowed to_uint64 left now
                (record { amount = more; asset_id = balance.asset_id })
              ≡ is_withdraw_allowed to_uint64
                  (vesting owner balance p)
                  now
                  (record { amount = amount.amount + more; asset_id = balance.asset_id }))
  is_withdraw_allowed-withdraw h =
      let (e, a, b, d) = withdraw-allowed to_uint64 conv owner balance p now amount c l n h in
      let rest : Asset = record balance { amount = balance.amount - amount.amount } in
      let q = withdrawn p balance.amount now amount.amount in
      (
        vesting owner rest q,
        e,
        λ more.
            let x =
              is_withdraw_allowed_lem to_uint64 conv owner rest q now
                (record { amount = more; asset_id = balance.asset_id }) d (omega arith) n refl in
            let y =
              is_withdraw_allowed_lem to_uint64 conv owner balance p now
                (record { amount = amount.amount + more; asset_id = balance.asset_id }) c l n
                refl in
            let z = allowed_at-withdrawn to_uint64 conv owner balance p now amount c l n a in
            let w : leb more (allowed_at q (balance.amount - amount.amount) now)
                ≡ leb (amount.amount + more) (allowed_at p balance.amount now) =
              rw z (ground arith) in
            rw (x, y, w) refl,
      )
