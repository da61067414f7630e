-- ===== src/Vesting/Withdraw.antt =====
-- What a withdrawal and the deposits do to a balance of coin seconds.
use karma_core.Base.{
  ℕ, ◌+◌, ◌-◌, ◌*◌, ◌/◌, ◌^◌, ◌≤◌, ◌<◌, ◌≡◌, true, ok, arith, refl, ◌∙◌, ap, Bool-cases, inl, inr,
  leb,
}
use native.Mathlib.Nat.{div-mul-le_self, mul-sub, mul_comm, mul-le-mul_right, add-mul-div_right}
use karma_core.Assets.{Asset, asset_le, asset_eq, asset_lt, asset_sub}
use karma_core.Assets.Order.{asset_le_same}
use karma_core.Vesting.Types.{CddVestingPolicy, cdd, VestingBalance}
use karma_core.Vesting.Policy.{cdd_withdraw_allowed, update_coin_seconds_earned, cdd_on_withdraw}
use karma_core.Vesting.Balance.{
  context, policy_withdraw_allowed, is_withdraw_allowed, withdraw, on_withdraw,
}
use karma_core.Vesting.CoinSeconds.{
  rate, IsCapped, earned_at, allowed_at, compute_coin_seconds_earned_lem, cdd_allowed_lem,
  product_bound, rate_bound, withdraw_available,
}

abbrev pub vesting : ℕ → Asset → CddVestingPolicy → VestingBalance
vesting owner balance p = record { owner = owner; balance = balance; policy = cdd p }

pub minus_product : (b a r : ℕ) → (b - a) * r ≡ b * r - a * r
minus_product b a r =
    mul_comm (b - a) r
    ∙ mul-sub r b a
    ∙ ap (λ x. x - r * a) (mul_comm r b)
    ∙ ap (λ x. b * r - x) (mul_comm r a)

self_minus : (n : ℕ) → n - n ≡ 0
self_minus n = omega arith

times_zero : (n : ℕ) → n * 0 ≡ 0
times_zero n = omega arith

put_back : (e x : ℕ) → x ≤ e → e - x + x ≡ e
put_back e x h = omega arith

pub no_time : (b now : ℕ) → b * (now - now) ≡ 0
no_time b now = ap (λ x. b * x) (self_minus now) ∙ times_zero b

pub div_minus : (e a r : ℕ) → 0 < r → a * r ≤ e → (e - a * r) / r ≡ e / r - a
div_minus e a r h k =
    let x = add-mul-div_right (e - a * r) a h in
    let y = ap (λ t. t / r) (put_back e (a * r) k) in omega arith

-- The policy of a balance, by its amount, after a withdrawal at a time.
abbrev pub withdrawn : CddVestingPolicy → ℕ → ℕ → ℕ → CddVestingPolicy
withdrawn p balance now amount = record p {
  coin_seconds_earned = earned_at p balance now - amount * rate p;
  coin_seconds_earned_last_update = now;
}

module _ (to_uint64 : ℕ → ℕ) (conv : (x : ℕ) → x < 2 ^ 64 → to_uint64 x ≡ x) (owner : ℕ)
    (balance : Asset) (p : CddVestingPolicy) (now : ℕ) (amount : Asset)
    (c : IsCapped p balance.amount) (l : p.coin_seconds_earned_last_update ≤ now)
    (n : now < 2 ^ 32) where
  abbrev earned : ℕ
  earned = earned_at p balance.amount now

  pub updated :
      update_coin_seconds_earned to_uint64 p (context (vesting owner balance p) now amount)
      ≡ ok (record p { coin_seconds_earned = earned; coin_seconds_earned_last_update = now })
  unfolding update_coin_seconds_earned
  updated =
      rw
        (compute_coin_seconds_earned_lem to_uint64 p (context (vesting owner balance p) now amount)
          c l n)
        refl

  allowed_fits :
      is_withdraw_allowed to_uint64 (vesting owner balance p) now amount ≡ ok true
      → (amount.asset_id ≡ balance.asset_id)
        × (amount.amount ≤ allowed_at p balance.amount now)
        × (amount.amount ≤ balance.amount)
  unfolding is_withdraw_allowed policy_withdraw_allowed cdd_withdraw_allowed asset_le asset_eq
      asset_lt
  allowed_fits h =
      let e =
        cdd_allowed_lem to_uint64 p (context (vesting owner balance p) now amount) conv c l n in
      (ground (arith, e), ground (arith, e), ground (arith, e))

  allowed_at-fits : allowed_at p balance.amount now ≤ balance.amount
  allowed_at-fits = let x = withdraw_available p balance.amount now in ground arith

  allowed_seconds :
      amount.amount ≤ allowed_at p balance.amount now → amount.amount * rate p ≤ earned
  allowed_seconds h =
      let x = mul-le-mul_right (rate p) h in let y = div-mul-le_self earned (rate p) in ground arith

  withdrawn-IsCapped :
      amount.amount ≤ balance.amount
      → IsCapped (withdrawn p balance.amount now amount.amount) (balance.amount - amount.amount)
  withdrawn-IsCapped h = record {
    small = let s = c.small in omega arith;
    seconds = c.seconds;
    capped = let x = minus_product balance.amount amount.amount (rate p) in omega arith;
  }

  on_withdraw_lem :
      amount.amount ≤ allowed_at p balance.amount now
      → amount.amount ≤ balance.amount
      → cdd_on_withdraw to_uint64 p (context (vesting owner balance p) now amount)
        ≡ ok (withdrawn p balance.amount now amount.amount)
  unfolding cdd_on_withdraw
  on_withdraw_lem h b =
      let x =
        product_bound amount.amount (rate p) (let s = c.small in omega arith)
          (rate_bound p c.seconds) in
      let y = allowed_seconds h in ground (arith, updated)

  -- Where `is_withdraw_allowed` says yes, at a time not before the last update, `withdraw` succeeds: the
  -- balance and the coin seconds lose what the amount needs, and the coin seconds stay within what the
  -- rest of the balance needs, which is the condition for the next operation. Before it, the
  -- coin seconds are within what the balance needs, the balance is at most the greatest supply, times
  -- have 32 bits, and a number of 64 bits is converted to itself.
  pub withdraw-allowed :
      is_withdraw_allowed to_uint64 (vesting owner balance p) now amount ≡ ok true
      → (withdraw to_uint64 (vesting owner balance p) now amount
          ≡ ok (
              vesting owner
                (record balance { amount = balance.amount - amount.amount })
                (withdrawn p balance.amount now amount.amount)))
        × (amount.amount ≤ allowed_at p balance.amount now)
        × (amount.amount ≤ balance.amount)
        × IsCapped (withdrawn p balance.amount now amount.amount) (balance.amount - amount.amount)
  unfolding withdraw on_withdraw asset_le asset_eq asset_lt asset_sub
  withdraw-allowed h =
      let (i, a, b) = allowed_fits h in
      (ground (arith, on_withdraw_lem a b), a, b, withdrawn-IsCapped b)

  earned_at-withdrawn :
      earned_at (withdrawn p balance.amount now amount.amount) (balance.amount - amount.amount) now
      ≡ earned - amount.amount * rate p
  earned_at-withdrawn =
      let x = minus_product balance.amount amount.amount (rate p) in
      let z = no_time (balance.amount - amount.amount) now in omega arith

  -- The allowance after a withdrawal.
  pub allowed_at-withdrawn :
      amount.amount ≤ allowed_at p balance.amount now
      → allowed_at
          (withdrawn p balance.amount now amount.amount)
          (balance.amount - amount.amount)
          now
        ≡ allowed_at p balance.amount now - amount.amount
  allowed_at-withdrawn h = elim (Bool-cases (leb now p.start_claim)) [
    | inl s ↦ ground arith
    | inr s ↦
        let y = allowed_seconds h in
        let d = div_minus earned amount.amount (rate p) (omega arith) y in
        rw (earned_at-withdrawn) (ground arith)
  ]

  -- `is_withdraw_allowed` compares the amount with the allowance.
  pub is_withdraw_allowed_lem :
      amount.asset_id ≡ balance.asset_id
      → is_withdraw_allowed to_uint64 (vesting owner balance p) now amount
        ≡ ok (leb amount.amount (allowed_at p balance.amount now))
  unfolding is_withdraw_allowed policy_withdraw_allowed cdd_withdraw_allowed
  is_withdraw_allowed_lem same =
      let e =
        cdd_allowed_lem to_uint64 p (context (vesting owner balance p) now amount) conv c l n in
      let w = allowed_at-fits in
      let x =
        asset_le_same amount
          (record { amount = allowed_at p balance.amount now; asset_id = balance.asset_id }) same in
      let y = asset_le_same amount balance same in ground (arith, e)
