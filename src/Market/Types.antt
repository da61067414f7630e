-- ===== src/Market/Types.antt =====
-- The objects that matching reads and writes, and the part of the database that holds them. A
-- reference to an object is its id, and a reference to one that is gone is `undefined`.
use karma_core.Base.{ℕ, Bool, List, ◌==◌, if◌then◌else◌, Result}
use karma_core.Base.Int.{ℤ}
use karma_core.Base.Dict.{Dict}
use karma_core.Assets.{Asset, Price, times}
use karma_core.Permit.{Rows}

pub record LimitOrder : Type 0 where
  pub expiration : ℕ
  pub seller : ℕ
  pub for_sale : ℕ
  pub sell_price : Price
  pub deferred_fee : ℕ

abbrev pub amount_for_sale : LimitOrder → Asset
amount_for_sale o = record { amount = o.for_sale; asset_id = o.sell_price.base.asset_id }

abbrev pub amount_to_receive : LimitOrder → Result Asset
amount_to_receive o = times (amount_for_sale o) o.sell_price

pub record CallOrder : Type 0 where
  pub borrower : ℕ
  pub collateral : ℕ
  pub debt : ℕ
  pub call_price : Price

abbrev pub get_collateral : CallOrder → Asset
get_collateral o = record { amount = o.collateral; asset_id = o.call_price.base.asset_id }

abbrev pub get_debt : CallOrder → Asset
get_debt o = record { amount = o.debt; asset_id = o.call_price.quote.asset_id }

pub record ForceSettlement : Type 0 where
  pub owner : ℕ
  pub balance : Asset
  pub settlement_date : ℕ

pub record CollateralBid : Type 0 where
  pub bidder : ℕ
  pub inv_swan_price : Price

-- Of `account_statistics_object`, what matching writes.
pub record AccountStatistics : Type 0 where
  pub total_core_in_orders : ℤ
  pub pending_fees : ℕ
  pub pending_vested_fees : ℕ

pub record DynamicData : Type 0 where
  pub current_supply : ℤ
  pub accumulated_fees : ℕ

-- Of `asset_object`, what the market fee depends on.
pub record FeeOptions : Type 0 where
  pub charges_market_fees : Bool
  pub market_fee_percent : ℕ
  pub max_market_fee : ℕ

-- The virtual operations that matching pushes, by the fields that it fills in.
pub data AppliedOperation : Type 0 where
  fill_order_operation :
      (order account : ℕ) (pays receives fee : Asset) (fill_price : Price) (is_maker : Bool)
      → AppliedOperation
  limit_order_cancel_operation : (order fee_paying_account : ℕ) → AppliedOperation
  asset_settle_cancel_operation : (settlement account : ℕ) (amount : Asset) → AppliedOperation
  bid_collateral_operation :
      (bidder : ℕ) (additional_collateral debt_covered : Asset) → AppliedOperation
  execute_bid_operation : (bidder : ℕ) (collateral debt : Asset) → AppliedOperation

pub record Market : Type 0 where
  pub balances : Rows
  pub statistics : ℕ → AccountStatistics
  pub dynamic : ℕ → DynamicData
  pub fee_options : ℕ → FeeOptions
  pub orders : Dict LimitOrder
  pub calls : Dict CallOrder
  pub settlements : Dict ForceSettlement
  pub bids : Dict CollateralBid
  pub applied : List AppliedOperation
  pub head_block_time : ℕ
  pub cashback_vesting_threshold : ℕ

-- The asset of the fees, and of `total_core_in_orders`.
abbrev pub core_asset : ℕ
core_asset = 0

abbrev pub update {ℓ} : {A : Type ℓ} → ℕ → A → (ℕ → A) → ℕ → A
update k v f j = if j == k then v else f j
