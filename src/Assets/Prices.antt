-- ===== src/Assets/Prices.antt =====
-- Prices: their order, conversion by a price, and the two prices made of ratios.
use karma_core.Base.{
  ℕ, zero, suc, ◌+◌, ◌*◌, ◌/◌, ◌%◌, ◌^◌, Bool, true, false, ◌&&◌, ◌||◌, not, ltb, leb, ◌==◌,
  if◌then◌else◌, Result, ok, err, guard, assertion, out_of_fuel, ◌>>=◌, ◌>>◌,
}
use karma_core.Assets.Types.{Asset}

pub record Price : Type 0 where
  pub base : Asset
  pub quote : Asset

abbrev pub max_share_supply : ℕ
max_share_supply = 1000000000000000

-- A product in `uint128_t`.
abbrev pub wide : ℕ → ℕ → ℕ
wide a b = (a * b) % 2 ^ 128

abbrev pub same_market : Price → Price → Bool
same_market a b = (a.base.asset_id == b.base.asset_id) && (a.quote.asset_id == b.quote.asset_id)

unfoldable pub price_eq : Price → Price → Bool
price_eq a b =
    same_market a b && (wide b.quote.amount a.base.amount == wide a.quote.amount b.base.amount)

unfoldable pub price_lt : Price → Price → Bool
price_lt a b =
    if ltb a.base.asset_id b.base.asset_id
    then true
    else if ltb b.base.asset_id a.base.asset_id
    then false
    else if ltb a.quote.asset_id b.quote.asset_id
    then true
    else if ltb b.quote.asset_id a.quote.asset_id
    then false
    else ltb (wide b.quote.amount a.base.amount) (wide a.quote.amount b.base.amount)

unfoldable pub price_le : Price → Price → Bool
unfolding price_eq price_lt
price_le a b = price_eq a b || price_lt a b

unfoldable pub price_gt : Price → Price → Bool
unfolding price_le
price_gt a b = not (price_le a b)

-- `operator ~`
abbrev pub invert : Price → Price
invert p = record { base = p.quote; quote = p.base }

-- One side of `asset * price`: an amount of the asset `from`, in terms of `to`.
abbrev pub convert : ℕ → Asset → Asset → Result Asset
convert amount from to =
    guard (ltb 0 from.amount) assertion
    >> (guard (leb (wide amount to.amount / from.amount) max_share_supply) assertion
        >> ok (record { amount = wide amount to.amount / from.amount; asset_id = to.asset_id }))

-- `asset * price`
unfoldable pub times : Asset → Price → Result Asset
times a b =
    if a.asset_id == b.base.asset_id
    then convert a.amount b.base b.quote
    else if a.asset_id == b.quote.asset_id
    then convert a.amount b.quote b.base
    else err assertion

-- `asset / asset`
unfoldable pub divide : Asset → Asset → Result Price
divide base quote =
    guard (not (base.asset_id == quote.asset_id)) assertion
    >> ok (record { base = base; quote = quote })

-- `price::max` and `price::min`
unfoldable pub price_max : ℕ → ℕ → Result Price
unfolding divide
price_max base quote =
    divide (record { amount = max_share_supply; asset_id = base })
      (record { amount = 1; asset_id = quote })

unfoldable pub price_min : ℕ → ℕ → Result Price
unfolding divide
price_min base quote =
    divide (record { amount = 1; asset_id = base })
      (record { amount = max_share_supply; asset_id = quote })

-- `price::is_null`: the default price has the asset 0 twice, and no amounts.
unfoldable pub is_null : Price → Bool
unfolding price_eq
is_null p = price_eq p (record {
  base = record { amount = 0; asset_id = 0 };
  quote = record { amount = 0; asset_id = 0 };
})

-- `price::validate`
unfoldable pub validate_price : Price → Result (Unit {0})
validate_price p = do
  guard (ltb 0 p.base.amount) assertion
  guard (ltb 0 p.quote.amount) assertion
  guard (not (p.base.asset_id == p.quote.asset_id)) assertion

-- A numerator and a denominator.
abbrev pub Ratio : Type 0
Ratio = ℕ × ℕ

abbrev pub collateral_ratio_denom : ℕ
collateral_ratio_denom = 1000

-- `reduce` is the reduction to lowest terms that `boost::rational` makes of every value.
module _ (reduce : Ratio → Ratio) where
  -- The loop that halves both parts until they fit, on fuel.
  unfoldable pub shrink : (ℕ → ℕ) → ℕ → Ratio → Result Ratio
  shrink halve zero r = err out_of_fuel
  shrink halve (suc fuel) r = elim (ltb max_share_supply (r.0) || ltb max_share_supply (r.1)) [
    | true ↦ shrink halve fuel (reduce (halve (r.0), halve (r.1)))
    | false ↦ ok r
  ]

  abbrev pub product : Ratio → Ratio → Ratio
  product a b = reduce (a.0 * b.0, a.1 * b.1)

  abbrev pub fuel : ℕ
  fuel = 64

  -- `price::call_price`; a rational with the denominator 0 throws.
  unfoldable pub call_price : Asset → Asset → ℕ → Result Price
  unfolding shrink divide
  call_price debt collateral collateral_ratio =
      guard (ltb 0 collateral.amount) assertion
      >> (shrink (λ n. n / 2 + 1) fuel
            (product (reduce (debt.amount, collateral.amount))
              (reduce (collateral_ratio, collateral_ratio_denom)))
          >>= λ cp.
              divide (record { amount = cp.0; asset_id = debt.asset_id })
                (record { amount = cp.1; asset_id = collateral.asset_id })
              >>= λ p. ok (invert p))

  -- `price_feed::max_short_squeeze_price`
  unfoldable pub max_short_squeeze_price : Price → ℕ → Result Price
  unfolding shrink divide
  max_short_squeeze_price settlement_price maximum_short_squeeze_ratio =
      guard (ltb 0 settlement_price.quote.amount && ltb 0 maximum_short_squeeze_ratio) assertion
      >> (shrink (λ n. n / 2 + n % 2) fuel
            (product (reduce (settlement_price.base.amount, settlement_price.quote.amount))
              (reduce (collateral_ratio_denom, maximum_short_squeeze_ratio)))
          >>= λ cp.
              divide (record { amount = cp.0; asset_id = settlement_price.base.asset_id })
                (record { amount = cp.1; asset_id = settlement_price.quote.asset_id }))

-- `scaled_precision` and its table of powers of 10.
unfoldable pub scaled_precision : ℕ → Result ℕ
scaled_precision precision = guard (ltb precision 19) assertion >> ok (10 ^ precision)
