-- ===== src/Market/Examples.antt =====
-- Witnesses and tests of matching: two accounts, and assets 0, 1 and 2.
use karma_core.Base.{
  ℕ, ◌+◌, ◌≡◌, refl, true, false, ◌==◌, List, [], ◌∷◌, none, some, ok, arith, inl, inr, Bool-cases,
  sym, Bool, Result, if◌then◌else◌,
}
use karma_core.Base.Int.{pos, ◌-ℤ◌}
use karma_core.Base.Dict.{Dict, lookup}
use karma_core.Assets.{Asset, Price}
use karma_core.Permit.{get_balance}
use karma_core.Market.{
  LimitOrder, amount_for_sale, CallOrder, ForceSettlement, Market, AccountStatistics, cancel_order,
  match_orders, apply_order, fill_call_order, fill_settlement, match_settlement,
}
use karma_core.Market.Worth.{worth, on_asset, IsOrder, IsMarket}
use karma_core.Market.Moves.{Gains}
use karma_core.Market.Cancelled.{Moved, Refunded, cancel_order_lem}
use karma_core.Market.Filled.{Filled}
use karma_core.Market.Matched.{Matched}
use karma_core.Market.Applied.{Applied}
use karma_core.Market.Called.{Called, fill_call_order_lem}
use karma_core.Market.Settled.{fill_settlement_lem}

abbrev asset : ℕ → ℕ → Asset
asset n i = record { amount = n; asset_id = i }

abbrev accounts : List ℕ
accounts = 10 ∷ 11 ∷ []

-- Account 10 sells 100 of asset 1 at 2 for each of asset 2.
abbrev taker : LimitOrder
taker = record {
  expiration = 0;
  seller = 10;
  for_sale = 100;
  sell_price = record { base = asset 100 1; quote = asset 200 2 };
  deferred_fee = 3;
}

-- Account 11 sells 90 of asset 2 at 1 for 3.
abbrev maker : LimitOrder
maker = record {
  expiration = 0;
  seller = 11;
  for_sale = 90;
  sell_price = record { base = asset 90 2; quote = asset 30 1 };
  deferred_fee = 0;
}

abbrev call : CallOrder
call = record {
  borrower = 11;
  collateral = 400;
  debt = 50;
  call_price = record { base = asset 8 0; quote = asset 1 2 };
}

abbrev settle : ForceSettlement
settle = record { owner = 10; balance = asset 60 2; settlement_date = 0 }

abbrev statistics_of : ℕ → AccountStatistics
statistics_of a = record {
  total_core_in_orders = if a == 11 then pos 400 else pos 0;
  pending_fees = 0;
  pending_vested_fees = 0;
}

abbrev supply_of : ℕ → ℕ
supply_of i = if i == 0 then 403 else if i == 1 then 100 else if i == 2 then 150 else 0

-- A fee of 2% on each asset.
abbrev book : Market
book = record {
  balances = λ a i. none;
  statistics = statistics_of;
  dynamic = λ i. record { current_supply = pos (supply_of i); accumulated_fees = 0 };
  fee_options =
      λ i. record { charges_market_fees = true; market_fee_percent = 200; max_market_fee = 1000 };
  orders = (1, taker) ∷ (2, maker) ∷ [];
  calls = (3, call) ∷ [];
  settlements = (4, settle) ∷ [];
  bids = [];
  applied = [];
  head_block_time = 1500000000;
  cashback_vesting_threshold = 10;
}

taker_ok : IsOrder accounts taker
taker_ok = record {
  known = refl;
  proper = record {
    base_pos = omega arith;
    quote_pos = omega arith;
    base_fits = omega arith;
    quote_fits = omega arith;
  };
  two_assets = ground arith;
  for_sale_pos = omega arith;
  for_sale_fits = omega arith;
}

maker_ok : IsOrder accounts maker
maker_ok = record {
  known = refl;
  proper = record {
    base_pos = omega arith;
    quote_pos = omega arith;
    base_fits = omega arith;
    quote_fits = omega arith;
  };
  two_assets = ground arith;
  for_sale_pos = omega arith;
  for_sale_fits = omega arith;
}

orders_ok : (id : ℕ) (o : LimitOrder) → lookup id book.orders ≡ some o → IsOrder accounts o
unfolding lookup
orders_ok id o e = elim (Bool-cases (id == 1)) [
  | inl f ↦ let z : taker ≡ o = ground arith in rw (sym z) taker_ok
  | inr f ↦ elim (Bool-cases (id == 2)) [
    | inl g ↦ let z : maker ≡ o = ground arith in rw (sym z) maker_ok
    | inr g ↦ absurd (ground arith)
  ]
]

book_ok : IsMarket accounts book
unfolding lookup
book_ok = record { distinct = (refl, (refl, tt)); order = orders_ok; percent = λ i. omega arith }

found :
    (lookup 1 book.orders ≡ some taker)
    × (lookup 2 book.orders ≡ some maker)
    × (lookup 3 book.calls ≡ some call)
    × (lookup 4 book.settlements ≡ some settle)
unfolding lookup
found = (refl, refl, refl, refl)

cancel_order_example :
    (t : Market) × (cancel_order 1 true book ≡ ok t)
    × (lookup 1 t.orders ≡ none)
    × ((i : ℕ) → worth accounts i t ≡ worth accounts i book)
    × Moved accounts 1 (amount_for_sale taker) (amount_for_sale taker) book t
    × Refunded taker book t
cancel_order_example = cancel_order_lem accounts 1 taker book book_ok (found.0) true

fill_call_order_example :
    (t : Market) × (fill_call_order 3 (asset 250 0) (asset 50 2) call.call_price true book
      ≡ ok (true, t))
    × Called accounts (asset 250 0) (asset 50 2) book t
    × (lookup 3 t.calls ≡ none)
unfolding lookup
fill_call_order_example =
    fill_call_order_lem accounts 3 call (asset 250 0) (asset 50 2) call.call_price true book
      (refl, tt) (found.2) refl refl refl (ground arith) (omega arith) (omega arith) (omega arith)

fill_settlement_example :
    (t : Market) × (fill_settlement 4 (asset 50 2) (asset 250 0) call.call_price false book
      ≡ ok (false, t))
    × ((i : ℕ)
        → worth accounts i t + on_asset i (asset 50 2)
          ≡ worth accounts i book + on_asset i (asset 250 0))
    × ((i : ℕ) → (t.dynamic i).current_supply ≡ (book.dynamic i).current_supply)
    × (t.calls ≡ book.calls)
    × (lookup 4 t.settlements ≡ some (record settle { balance = asset 10 2 }))
    × Gains 10 (asset 245 0) book.balances t.balances
unfolding lookup karma_core.Market.calculate_market_fee
fill_settlement_example =
    fill_settlement_lem accounts 4 settle (asset 50 2) (asset 250 0) call.call_price false book
      (refl, tt) (found.3) refl refl (ground arith) (omega arith) (omega arith)

-- Five of the core asset for each of asset 2.
abbrev swan : Price
swan = record { base = asset 1 2; quote = asset 5 0 }

-- Nobody owes asset 2: only asset 3 is market-issued, and no call order is called.
abbrev plain : Market
plain = record book { calls = []; settlements = [] }

abbrev issued : ℕ → Bool
issued i = i == 3

abbrev no_calls : ℕ → Bool → Bool → Market → Result (Bool × Market)
no_calls mia enable_black_swan for_new_limit_order s = ok (false, s)

-- The new order meets the other one, which is filled, and stays.
test_apply :
    (t : Market) × (apply_order issued no_calls 1 true plain ≡ ok (false, t))
    × (get_balance 10 2 t.balances ≡ 89)
    × (lookup 2 t.orders ≡ none)
unfolding apply_order get_balance ◌-ℤ◌
test_apply = (_, refl, refl, refl)

-- The match ends in a value: the maker is filled.
test_match :
    (t : Market) × (match_orders 1 2 maker.sell_price book ≡ ok (2, t))
    × (get_balance 10 2 t.balances ≡ 89)
    × (get_balance 11 1 t.balances ≡ 30)
unfolding match_orders get_balance
test_match = (_, refl, refl, refl)

test_settlement :
    (t : Market) × (match_settlement 3 4 swan (asset 70 2) book ≡ ok (asset 50 2, t))
    × (get_balance 10 0 t.balances ≡ 245)
    × (get_balance 11 0 t.balances ≡ 150)
unfolding match_settlement get_balance ◌-ℤ◌
test_settlement = (_, refl, refl, refl)
