-- ===== src/Market/Filled.antt =====
-- A limit order that is filled pays what it is asked for, and receives the price less the market fee.
use karma_core.Base.{
  ℕ, ◌+◌, ◌-◌, ◌≤◌, ◌≡◌, ◌≢◌, Bool, true, false, ◌||◌, List, none, some, ltb, arith, Post, Post-map,
}
use karma_core.Base.Dict.{lookup}
use karma_core.Assets.{Asset, Price}
use karma_core.Permit.{Rows}
use karma_core.Market.Types.{LimitOrder, fill_order_operation, Market, core_asset}
use karma_core.Market.Fill.{
  calculate_market_fee, collect, pay_market_fees, pay_order, release, pay_deferred, push_applied,
  reduce_order, fill_limit_order, hardfork_555_time,
}
use karma_core.Market.Worth.{on, on_asset, held, worth, IsMarket}
use karma_core.Market.Moves.{credit-held, release-owed, pay_deferred-owed}
use karma_core.Market.Reduced.{
  Refused, Reduced, Remains, calculate_market_fee_lem, reduce_order-Reduced,
}

-- The order paid `pays` and got `receives`: the other orders and each supply stay, the market stays
-- well formed, and an order that paid all that it had is reported as filled.
pub record Filled (hs : List ℕ) (id : ℕ) (o : LimitOrder) (pays receives : Asset) (s : Market)
    (r : Bool × Market) : Type 0 where
  pub valid : IsMarket hs (r.1)
  pub worth_kept : (i : ℕ) → worth hs i (r.1) + on_asset i pays ≡ worth hs i s + on_asset i receives
  pub supply_kept : (i : ℕ) → ((r.1).dynamic i).current_supply ≡ (s.dynamic i).current_supply
  pub others : (j : ℕ) → j ≢ id → lookup j (r.1).orders ≡ lookup j s.orders
  pub removed : pays.amount ≡ o.for_sale → r.0 ≡ true
  pub remains : r.0 ≡ false → Remains id o (r.1)
  pub gone : r.0 ≡ true → lookup id (r.1).orders ≡ none

module _ (hs : List ℕ) (id : ℕ) (o : LimitOrder) (pays receives : Asset) (fill_price : Price)
    (is_maker : Bool) (s : Market) (h : IsMarket hs s) (e : lookup id s.orders ≡ some o) where
  abbrev fee : ℕ
  fee = calculate_market_fee (s.fee_options receives.asset_id) receives

  abbrev left : Asset
  left = record receives { amount = receives.amount - fee }

  -- The market before the order is reduced: the fee, the seller and the deferred fee are paid.
  abbrev paid : Rows → Market
  paid rows = pay_deferred o (
      push_applied
        (fill_order_operation id o.seller pays receives (record receives { amount = fee })
          fill_price is_maker)
        (record (release o.seller pays (collect receives.asset_id fee s)) { balances = rows }))

  paid-worth :
      (rows : Rows) (i : ℕ)
      → held hs i (record s { balances = rows }) ≡ held hs i s + on_asset i left
      → worth hs i (paid rows) ≡ worth hs i s + on_asset i receives + on i core_asset o.deferred_fee
  paid-worth rows i f =
      let k = h.order id o e in
      let u = release o.seller pays (collect receives.asset_id fee s) in
      let x = release-owed hs o.seller i pays s in
      let y = pay_deferred-owed hs o i u k.known in
      let z =
        calculate_market_fee_lem (s.fee_options receives.asset_id) receives
          (h.percent receives.asset_id) in
      ground arith

  pub fill_limit_order_lem :
      (cull_if_small : Bool)
      → pays.asset_id ≡ o.sell_price.base.asset_id
      → pays.asset_id ≢ receives.asset_id
      → pays.amount ≤ o.for_sale
      → Post Refused
          (Filled hs id o pays receives s)
          (fill_limit_order id pays receives cull_if_small fill_price is_maker s)
  unfolding fill_limit_order pay_market_fees pay_order
  fill_limit_order_lem cull same ne le =
      let k = h.order id o e in
      let z =
        calculate_market_fee_lem (s.fee_options receives.asset_id) receives
          (h.percent receives.asset_id) in
      let (rows, f, g) =
        credit-held hs o.seller left (release o.seller pays (collect receives.asset_id fee s))
          k.known in
      let q : fill_limit_order id pays receives cull fill_price is_maker s
          ≡ reduce_order id o pays (cull || ltb s.head_block_time hardfork_555_time) (paid rows) =
        ground arith in
      let v : IsMarket hs (paid rows) = record {
        distinct = h.distinct;
        order = h.order;
        percent = h.percent;
      } in
      rw q (
        Post-map Refused (Reduced hs id o pays (paid rows)) (Filled hs id o pays receives s)
          (reduce_order id o pays (cull || ltb s.head_block_time hardfork_555_time) (paid rows))
          (λ r m. record {
            valid = m.valid;
            worth_kept = λ i. omega (arith, m.worth_kept i, paid-worth rows i (g i));
            supply_kept = λ i. let x = m.supply_kept i in ground arith;
            others = m.others;
            removed = m.removed;
            remains = m.remains;
            gone = m.gone;
          })
          (reduce_order-Reduced hs id o pays (paid rows) v e same
            (cull || ltb s.head_block_time hardfork_555_time) le))
