-- ===== src/Assets/Examples.antt =====
-- Witnesses and tests of prices.
use karma_core.Base.{ℕ, ◌+◌, ◌*◌, ◌^◌, ◌≤◌, ◌<◌, ◌≡◌, ◌⊎◌, refl, true, false, ok, arith}
use karma_core.Assets.{
  Asset, Price, Ratio, price_lt, price_eq, price_gt, times, invert, call_price,
  max_short_squeeze_price, max_share_supply, price_max, is_null, validate_price, scaled_precision,
}
use karma_core.Assets.Order.{IsProper, price_lt_trans, price_trichotomy}
use karma_core.Assets.Rounding.{times_rounding, times-times-invert}
use karma_core.Assets.Shrink.{IsReduction, IsPriceOf, call_price_lem, max_short_squeeze_price_lem}

abbrev of_amounts : ℕ → ℕ → Price
of_amounts b q = record {
  base = record { amount = b; asset_id = 1 };
  quote = record { amount = q; asset_id = 2 };
}

abbrev cheap : Price
cheap = of_amounts 1 3

abbrev middle : Price
middle = of_amounts 2 5

abbrev dear : Price
dear = of_amounts 7 2

proper : (b q : ℕ) → 0 < b → 0 < q → b < 1000 → q < 1000 → IsProper (of_amounts b q)
proper b q h k x y = record {
  base_pos = h;
  quote_pos = k;
  base_fits = omega arith;
  quote_fits = omega arith;
}

cheap_ok : IsProper cheap
cheap_ok = proper 1 3 (omega arith) (omega arith) (omega arith) (omega arith)

middle_ok : IsProper middle
middle_ok = proper 2 5 (omega arith) (omega arith) (omega arith) (omega arith)

dear_ok : IsProper dear
dear_ok = proper 7 2 (omega arith) (omega arith) (omega arith) (omega arith)

cheap_below_middle : price_lt cheap middle ≡ true
unfolding price_lt
cheap_below_middle = refl

middle_below_dear : price_lt middle dear ≡ true
unfolding price_lt
middle_below_dear = refl

price_lt_trans_example : price_lt cheap dear ≡ true
price_lt_trans_example =
    price_lt_trans cheap middle dear cheap_ok middle_ok dear_ok cheap_below_middle middle_below_dear

price_trichotomy_example :
    ((price_lt dear cheap ≡ true) × (price_eq dear cheap ≡ false) × (price_lt cheap dear ≡ false))
    ⊎ ((price_lt dear cheap ≡ false) × (price_eq dear cheap ≡ true) × (price_lt cheap dear ≡ false))
    ⊎ ((price_lt dear cheap ≡ false) × (price_eq dear cheap ≡ false) × (price_lt cheap dear ≡ true))
price_trichotomy_example = price_trichotomy dear cheap dear_ok cheap_ok

abbrev ten : Asset
ten = record { amount = 10; asset_id = 1 }

abbrev two : Asset
two = record { amount = 2; asset_id = 2 }

abbrev seven : Asset
seven = record { amount = 7; asset_id = 1 }

-- Ten of the base at 2 for 7: three and a half times that, rounded down at each step.
abbrev seven_for_two : Price
seven_for_two = of_amounts 7 2

ten_converted : times ten seven_for_two ≡ ok two
unfolding times
ten_converted = refl

two_converted_back : times two (invert seven_for_two) ≡ ok seven
unfolding times
two_converted_back = refl

test_rounding :
    (two.asset_id ≡ seven_for_two.quote.asset_id)
    × (2 * 7 ≤ 10 * 2)
    × (10 * 2 < 2 * 7 + 7)
    × (2 ≤ max_share_supply)
test_rounding = times_rounding ten seven_for_two dear_ok refl (omega arith) ten_converted

times-times-invert_example : (seven.asset_id ≡ ten.asset_id) × (7 ≤ 10)
times-times-invert_example =
    times-times-invert ten seven_for_two dear_ok refl (omega arith) ten_converted two_converted_back

-- A reduction that keeps every ratio.
abbrev keep : Ratio → Ratio
keep r = r

keep_ok : IsReduction keep
keep_ok = record { positive = λ r p. p; smaller = λ r p. (omega arith, omega arith) }

abbrev debt : Asset
debt = record { amount = 2 ^ 62; asset_id = 2 }

abbrev collateral : Asset
collateral = record { amount = 1000; asset_id = 0 }

call_price_example : (p : Price) × (call_price keep debt collateral 1750 ≡ ok p) × IsPriceOf 0 2 p
call_price_example =
    call_price_lem keep keep_ok debt collateral 1750 (omega arith) (omega arith) (omega arith)
      (omega arith) (omega arith) (omega arith) (ground arith)

max_short_squeeze_price_example :
    (q : Price) × (max_short_squeeze_price keep cheap 1100 ≡ ok q) × IsPriceOf 1 2 q
max_short_squeeze_price_example =
    max_short_squeeze_price_lem keep keep_ok cheap 1100 (omega arith) (omega arith) (omega arith)
      (omega arith) (omega arith) (omega arith) (ground arith)

test_limits :
    (price_max 0 1
      ≡ ok (record {
        base = record { amount = max_share_supply; asset_id = 0 };
        quote = record { amount = 1; asset_id = 1 };
      }))
    × (is_null cheap ≡ false)
    × (validate_price cheap ≡ ok tt)
    × (scaled_precision 5 ≡ ok 100000)
    × (price_gt dear middle ≡ true)
unfolding price_max is_null validate_price scaled_precision price_gt
test_limits = (refl, refl, refl, refl, refl)
