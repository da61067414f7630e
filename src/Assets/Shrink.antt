-- ===== src/Assets/Shrink.antt =====
-- The halving loops of `call_price` and `max_short_squeeze_price` end, with amounts of a share supply.
use karma_core.Base.{
  ℕ, zero, suc, ◌+◌, ◌-◌, ◌*◌, ◌/◌, ◌%◌, ◌^◌, ◌≤◌, ◌<◌, ◌≡◌, ◌≢◌, refl, ◌||◌, ltb, ok, arith,
  Bool-cases, inl, inr,
}
use native.Mathlib.Nat.{mul-le-mul, mul-pos}
use karma_core.Assets.Types.{Asset}
use karma_core.Assets.Prices.{
  Price, Ratio, shrink, product, fuel, call_price, max_short_squeeze_price, max_share_supply,
  collateral_ratio_denom, divide,
}

-- Of a value with positive parts, the reduced one has positive parts that are no larger.
abbrev pub IsPositive : Ratio → Type 0
IsPositive r = (0 < r.0) × (0 < r.1)

pub record IsReduction (reduce : Ratio → Ratio) : Type 0 where
  pub positive : (r : Ratio) → IsPositive r → IsPositive (reduce r)
  pub smaller : (r : Ratio) → IsPositive r → ((reduce r).0 ≤ r.0) × ((reduce r).1 ≤ r.1)

-- What `k` rounds bring below the share supply.
abbrev bound : ℕ → ℕ
bound zero = max_share_supply
bound (suc k) = bound k + bound k - 2

bound_lem : (k : ℕ) → 2 ≤ bound k
bound_lem zero = ground arith
bound_lem (suc k) = let x = bound_lem k in omega arith

abbrev Below : ℕ → Ratio → Type 0
Below k r = (r.0 ≤ bound k) × (r.1 ≤ bound k)

-- A round keeps a part positive and brings it from one bound to the next.
pub record Halves (halve : ℕ → ℕ) : Type 0 where
  pub stays : (n : ℕ) → 0 < n → 0 < halve n
  pub halves : (n b : ℕ) → 0 < b → n ≤ b + b - 2 → halve n ≤ b

abbrev Fits : Ratio → Type 0
Fits r = IsPositive r × (r.0 ≤ max_share_supply) × (r.1 ≤ max_share_supply)

factors_le : (a b m n : ℕ) → a ≤ m → b ≤ n → a * b ≤ m * n
factors_le a b m n h k = mul-le-mul h k

module _ (reduce : Ratio → Ratio) (red : IsReduction reduce) (halve : ℕ → ℕ)
    (h : Halves halve) where
  shrink_lem :
      (k : ℕ) (r : Ratio)
      → IsPositive r
      → Below k r
      → (s : Ratio) × (shrink reduce halve (suc k) r ≡ ok s) × Fits s
  unfolding shrink
  shrink_lem zero r p b = (r, ground arith, (p, b.0, b.1))
  shrink_lem (suc k) r p b =
      elim (Bool-cases (ltb max_share_supply (r.0) || ltb max_share_supply (r.1))) [
        | inr e ↦ (r, rw (e, shrink) refl, (p, ground arith, ground arith))
        | inl e ↦
            let q : IsPositive (halve (r.0), halve (r.1)) =
              (h.stays (r.0) p.0, h.stays (r.1) p.1) in
            let (x, y) = red.smaller (halve (r.0), halve (r.1)) q in
            let above = bound_lem k in
            let u = h.halves (r.0) (bound k) (omega arith) b.0 in
            let v = h.halves (r.1) (bound k) (omega arith) b.1 in
            let (s, f, fits) =
              shrink_lem k (reduce (halve (r.0), halve (r.1)))
                (red.positive (halve (r.0), halve (r.1)) q) (omega arith, omega arith) in
            (s, rw (e, shrink) f, fits)
      ]

  -- Products of two ratios whose parts have 63 and 16 bits.
  product_lem :
      (a b : Ratio)
      → IsPositive a
      → IsPositive b
      → a.0 < 2 ^ 63
      → a.1 < 2 ^ 63
      → b.0 < 2 ^ 16
      → b.1 < 2 ^ 16
      → (s : Ratio) × (shrink reduce halve (fuel reduce) (product reduce (reduce a) (reduce b))
          ≡ ok s)
        × Fits s
  product_lem a b p q a0 a1 b0 b1 =
      let (ap0, ap1) = red.positive a p in
      let (as0, as1) = red.smaller a p in
      let (bp0, bp1) = red.positive b q in
      let (bs0, bs1) = red.smaller b q in
      let m : Ratio = ((reduce a).0 * (reduce b).0, (reduce a).1 * (reduce b).1) in
      let pos : IsPositive m = (mul-pos ap0 bp0, mul-pos ap1 bp1) in
      let (s0, s1) = red.smaller m pos in
      let x = factors_le (reduce a).0 (reduce b).0 (2 ^ 63) (2 ^ 16) (omega arith) (omega arith) in
      let y = factors_le (reduce a).1 (reduce b).1 (2 ^ 63) (2 ^ 16) (omega arith) (omega arith) in
      shrink_lem 63 (reduce m) (red.positive m pos) (omega arith, omega arith)

up-Halves : Halves (λ n. n / 2 + 1)
up-Halves = record { stays = λ n h. omega arith; halves = λ n b p h. omega arith }

evenly-Halves : Halves (λ n. n / 2 + n % 2)
evenly-Halves = record { stays = λ n h. omega arith; halves = λ n b p h. omega arith }

-- What `call_price` and `max_short_squeeze_price` promise of the price that they return.
pub record IsPriceOf (base quote : ℕ) (p : Price) : Type 0 where
  pub base_id : p.base.asset_id ≡ base
  pub quote_id : p.quote.asset_id ≡ quote
  pub base_pos : 0 < p.base.amount
  pub quote_pos : 0 < p.quote.amount
  pub base_below : p.base.amount ≤ max_share_supply
  pub quote_below : p.quote.amount ≤ max_share_supply

module _ (reduce : Ratio → Ratio) (red : IsReduction reduce) where
  -- With a reduction that keeps positive ratios positive and makes no part larger, `call_price` returns
  -- for every positive debt and collateral of two assets, of 63 bits, and every positive ratio of 16
  -- bits: its loop ends, and its price is of the collateral to the debt, with both amounts positive
  -- and at most the share supply.
  pub call_price_lem :
      (debt collateral : Asset) (ratio : ℕ)
      → 0 < debt.amount
      → 0 < collateral.amount
      → debt.amount < 2 ^ 63
      → collateral.amount < 2 ^ 63
      → 0 < ratio
      → ratio < 2 ^ 16
      → debt.asset_id ≢ collateral.asset_id
      → (p : Price) × (call_price reduce debt collateral ratio ≡ ok p)
        × IsPriceOf collateral.asset_id debt.asset_id p
  unfolding call_price divide
  call_price_lem debt collateral ratio d0 c0 d1 c1 r0 r1 ne =
      let (s, e, ((s0, s1), t0, t1)) =
        product_lem reduce red (λ n. n / 2 + 1) up-Halves (debt.amount, collateral.amount)
          (ratio, collateral_ratio_denom) (d0, c0) (r0, omega arith) d1 c1 r1 (omega arith) in
      (
        record {
          base = record { amount = s.1; asset_id = collateral.asset_id };
          quote = record { amount = s.0; asset_id = debt.asset_id };
        },
        ground arith,
        record {
          base_id = refl;
          quote_id = refl;
          base_pos = s1;
          quote_pos = s0;
          base_below = t1;
          quote_below = t0;
        },
      )

  -- Likewise `max_short_squeeze_price`, for a settlement price of positive amounts of two assets, of 63
  -- bits, and a positive ratio of 16 bits: its price is of the same two assets.
  pub max_short_squeeze_price_lem :
      (p : Price) (ratio : ℕ)
      → 0 < p.base.amount
      → 0 < p.quote.amount
      → p.base.amount < 2 ^ 63
      → p.quote.amount < 2 ^ 63
      → 0 < ratio
      → ratio < 2 ^ 16
      → p.base.asset_id ≢ p.quote.asset_id
      → (q : Price) × (max_short_squeeze_price reduce p ratio ≡ ok q)
        × IsPriceOf p.base.asset_id p.quote.asset_id q
  unfolding max_short_squeeze_price divide
  max_short_squeeze_price_lem p ratio d0 c0 d1 c1 r0 r1 ne =
      let (s, e, ((s0, s1), t0, t1)) =
        product_lem reduce red (λ n. n / 2 + n % 2) evenly-Halves (p.base.amount, p.quote.amount)
          (collateral_ratio_denom, ratio) (d0, c0) (omega arith, r0) d1 c1 (omega arith) r1 in
      (
        record {
          base = record { amount = s.0; asset_id = p.base.asset_id };
          quote = record { amount = s.1; asset_id = p.quote.asset_id };
        },
        ground arith,
        record {
          base_id = refl;
          quote_id = refl;
          base_pos = s0;
          quote_pos = s1;
          base_below = t0;
          quote_below = t1;
        },
      )
