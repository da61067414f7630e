-- ===== src/Market/Fill.antt =====
-- Filling and cancelling: `fill_order`, `cancel_order`, `pay_order` and the fees. An `assert`, and a
-- subtraction that C++ would take below 0, is `undefined`.
use karma_core.Base.{
  ℕ, ◌+◌, ◌-◌, ◌*◌, ◌/◌, ◌%◌, ◌^◌, Bool, true, false, ◌||◌, not, ltb, leb, ◌==◌, if◌then◌else◌, min,
  ◌∷◌, Result, ok, guard, or_fail, assertion, undefined, ◌>>=◌, ◌>>◌,
}
use karma_core.Base.Int.{pos, ◌-ℤ◌}
use karma_core.Base.Dict.{lookup, insert, erase}
use karma_core.Assets.{Asset, Price, asset_eq, asset_sub, times}
use karma_core.Permit.{adjust_balance}
use karma_core.Market.Types.{
  LimitOrder, amount_for_sale, amount_to_receive, AccountStatistics, FeeOptions, AppliedOperation,
  fill_order_operation, limit_order_cancel_operation, Market, core_asset, update,
}

abbrev pub hundred_percent : ℕ
hundred_percent = 10000

abbrev pub hardfork_555_time : ℕ
hardfork_555_time = 1456250400

-- `calculate_market_fee`
unfoldable pub calculate_market_fee : FeeOptions → Asset → ℕ
calculate_market_fee o trade_amount =
    if not o.charges_market_fees
    then 0
    else if o.market_fee_percent == 0
    then 0
    else min (((trade_amount.amount * o.market_fee_percent) % 2 ^ 128 / hundred_percent) % 2 ^ 64)
        o.max_market_fee

abbrev pub collect : ℕ → ℕ → Market → Market
collect asset_id fee s = record s {
  dynamic =
      update asset_id
        (if ltb 0 fee
          then record (s.dynamic asset_id) {
            accumulated_fees = (s.dynamic asset_id).accumulated_fees + fee;
          }
          else s.dynamic asset_id)
        s.dynamic;
}

-- `pay_market_fees`
unfoldable pub pay_market_fees : Asset → Market → Result (ℕ × Market)
unfolding calculate_market_fee
pay_market_fees receives s =
    let fee = calculate_market_fee (s.fee_options receives.asset_id) receives in
    guard (leb fee receives.amount) undefined >> ok (fee, collect receives.asset_id fee s)

-- What leaves the orders of an account.
abbrev pub release : ℕ → Asset → Market → Market
release account pays s = record s {
  statistics =
      update account
        (if pays.asset_id == core_asset
          then record (s.statistics account) {
            total_core_in_orders = (s.statistics account).total_core_in_orders -ℤ pos pays.amount;
          }
          else s.statistics account)
        s.statistics;
}

abbrev pub credit : ℕ → Asset → Market → Result Market
credit account delta s =
    adjust_balance account delta.asset_id (pos delta.amount) s.balances >>= λ rows.
    ok (record s { balances = rows })

-- `pay_order`
unfoldable pub pay_order : ℕ → Asset → Asset → Market → Result Market
unfolding adjust_balance
pay_order receiver receives pays s = credit receiver receives (release receiver pays s)

-- `account_statistics_object::pay_fee`
unfoldable pub pay_fee : ℕ → ℕ → AccountStatistics → AccountStatistics
pay_fee core_fee cashback_vesting_threshold a =
    if ltb cashback_vesting_threshold core_fee
    then record a { pending_fees = a.pending_fees + core_fee }
    else record a { pending_vested_fees = a.pending_vested_fees + core_fee }

abbrev pub pay_deferred : LimitOrder → Market → Market
pay_deferred o s = record s {
  statistics =
      update o.seller
        (if ltb 0 o.deferred_fee
          then pay_fee o.deferred_fee s.cashback_vesting_threshold (s.statistics o.seller)
          else s.statistics o.seller)
        s.statistics;
}

abbrev pub push_applied : AppliedOperation → Market → Market
push_applied op s = record s { applied = op ∷ s.applied }

-- `cancel_order` of a limit order
unfoldable pub cancel_order : ℕ → Bool → Market → Result Market
unfolding lookup erase adjust_balance
cancel_order id create_virtual_op s = do
  o ← or_fail (lookup id s.orders) undefined
  t ← credit o.seller (amount_for_sale o) (release o.seller (amount_for_sale o) s)
  u ← credit o.seller (record { amount = o.deferred_fee; asset_id = core_asset }) t
  let v = if create_virtual_op then push_applied (limit_order_cancel_operation id o.seller) u else u
  ok (record v { orders = erase id v.orders })

-- `maybe_cull_small_order`; `cancel_order` creates a virtual operation unless told otherwise.
unfoldable pub maybe_cull_small_order : ℕ → Market → Result (Bool × Market)
unfolding lookup times cancel_order
maybe_cull_small_order id s = or_fail (lookup id s.orders) undefined >>= λ o.
    amount_to_receive o >>= λ r. elim (r.amount == 0) [
      | true ↦ cancel_order id true s >>= λ t. ok (true, t)
      | false ↦ ok (false, s)
    ]

-- The end of `fill_order`: the order is removed, or reduced and perhaps culled.
unfoldable pub reduce_order : ℕ → LimitOrder → Asset → Bool → Market → Result (Bool × Market)
unfolding asset_eq insert erase maybe_cull_small_order
reduce_order id o pays cull_if_small s = elim (asset_eq pays (amount_for_sale o)) [
  | true ↦ ok (true, record s { orders = erase id s.orders })
  | false ↦
      guard (leb pays.amount o.for_sale) undefined
      >> (let t : Market = record s {
        orders =
            insert id (record o { for_sale = o.for_sale - pays.amount; deferred_fee = 0 }) s.orders;
      } in
          elim cull_if_small [ true ↦ maybe_cull_small_order id t | false ↦ ok (false, t) ])
]

-- `fill_order` of a limit order
unfoldable pub fill_limit_order :
    ℕ → Asset → Asset → Bool → Price → Bool → Market → Result (Bool × Market)
unfolding lookup pay_market_fees asset_sub pay_order pay_fee reduce_order
fill_limit_order id pays receives cull_if_small fill_price is_maker s = do
  o ← or_fail (lookup id s.orders) undefined
  guard (o.sell_price.base.asset_id == pays.asset_id) assertion
  guard (not (pays.asset_id == receives.asset_id)) assertion
  (fee, t) ← pay_market_fees receives s
  u ← pay_order o.seller (record receives { amount = receives.amount - fee }) pays t
  let v =
      push_applied
        (fill_order_operation id o.seller pays receives (record receives { amount = fee })
          fill_price is_maker)
        u
  reduce_order id o pays (cull_if_small || ltb s.head_block_time hardfork_555_time)
      (pay_deferred o v)
