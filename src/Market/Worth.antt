-- ===== src/Market/Worth.antt =====
-- What there is of an asset, wherever it is kept, and what makes a market well formed.
use karma_core.Base.{ℕ, ◌+◌, ◌^◌, ◌≤◌, ◌<◌, ◌≡◌, ◌≢◌, List, some, ◌==◌, if◌then◌else◌}
use karma_core.Base.Dict.{lookup, Distinct}
use karma_core.Assets.{Asset}
use karma_core.Assets.Order.{IsProper}
use karma_core.Permit.{get_balance}
use karma_core.Market.Types.{
  LimitOrder, CallOrder, ForceSettlement, CollateralBid, AccountStatistics, Market, core_asset,
}
use karma_core.Market.Fill.{hundred_percent}
use karma_core.Base.Sums.{count, sum_over, sum_of}

-- An amount of `j`, as an amount of `i`.
abbrev pub on : ℕ → ℕ → ℕ → ℕ
on i j n = if i == j then n else 0

abbrev pub on_asset : ℕ → Asset → ℕ
on_asset i a = on i a.asset_id a.amount

abbrev pub in_order : ℕ → LimitOrder → ℕ
in_order i o = on i o.sell_price.base.asset_id o.for_sale + on i core_asset o.deferred_fee

abbrev pub in_call : ℕ → CallOrder → ℕ
in_call i o = on i o.call_price.base.asset_id o.collateral

abbrev pub in_debt : ℕ → CallOrder → ℕ
in_debt i o = on i o.call_price.quote.asset_id o.debt

abbrev pub in_settlement : ℕ → ForceSettlement → ℕ
in_settlement i o = on_asset i o.balance

abbrev pub in_bid : ℕ → CollateralBid → ℕ
in_bid i b = on_asset i b.inv_swan_price.base

abbrev pub pending : ℕ → AccountStatistics → ℕ
pending i a = on i core_asset (a.pending_fees + a.pending_vested_fees)

abbrev pub held : List ℕ → ℕ → Market → ℕ
held hs i s = sum_over hs (λ a. get_balance a i s.balances)

abbrev pub owed : List ℕ → ℕ → Market → ℕ
owed hs i s = sum_over hs (λ a. pending i (s.statistics a))

-- All of the asset `i`, for the accounts `hs`: their balances and pending fees, what is in orders,
-- settlements and bids, and the fees that the asset has collected.
abbrev pub worth : List ℕ → ℕ → Market → ℕ
worth hs i s =
    held hs i s
    + owed hs i s
    + sum_of (in_order i) s.orders
    + sum_of (in_call i) s.calls
    + sum_of (in_settlement i) s.settlements
    + sum_of (in_bid i) s.bids
    + (s.dynamic i).accumulated_fees

-- The seller is one of the accounts; the price is of two assets, with positive amounts of 63 bits.
pub record IsOrder (hs : List ℕ) (o : LimitOrder) : Type 0 where
  pub known : count o.seller hs ≡ 1
  pub proper : IsProper o.sell_price
  pub two_assets : o.sell_price.base.asset_id ≢ o.sell_price.quote.asset_id
  pub for_sale_pos : 0 < o.for_sale
  pub for_sale_fits : o.for_sale < 2 ^ 63

-- No id is of two orders, every order is well formed, and no market fee is above 100%.
pub record IsMarket (hs : List ℕ) (s : Market) : Type 0 where
  pub distinct : Distinct s.orders
  pub order : (id : ℕ) (o : LimitOrder) → lookup id s.orders ≡ some o → IsOrder hs o
  pub percent : (i : ℕ) → (s.fee_options i).market_fee_percent ≤ hundred_percent

-- The debt of all call orders, in the asset `i`.
abbrev pub debt_of : ℕ → Market → ℕ
debt_of i s = sum_of (in_debt i) s.calls
