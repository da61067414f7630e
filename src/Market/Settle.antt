-- ===== src/Market/Settle.antt =====
-- Fills of call orders and of force settlements, their `match`, and the collateral bids. Every debt is
-- of a market-issued asset.
use karma_core.Base.{
  ℕ, ◌+◌, ◌-◌, Bool, true, false, ◌&&◌, ◌||◌, not, ltb, leb, ◌==◌, if◌then◌else◌, Result, ok, guard,
  or_fail, assertion, undefined, black_swan, ◌>>=◌, ◌>>◌, ◌∷◌,
}
use karma_core.Base.Int.{ℤ, pos, ◌-ℤ◌, ◌+ℤ◌, leb_ℤ}
use karma_core.Base.Dict.{lookup, insert, erase}
use karma_core.Assets.{Asset, Price, Ratio, asset_eq, asset_lt, asset_le, times, call_price}
use karma_core.Permit.{adjust_balance}
use karma_core.Market.Types.{
  CallOrder, get_collateral, get_debt, ForceSettlement, Market, core_asset, update,
  fill_order_operation, asset_settle_cancel_operation, bid_collateral_operation,
  execute_bid_operation,
}
use karma_core.Market.Fill.{credit, push_applied, pay_market_fees}

abbrev pub set_call : ℕ → CallOrder → Market → Market
set_call id o s = record s { calls = insert id o s.calls }

abbrev pub lower_supply : ℕ → ℕ → Market → Market
lower_supply asset_id amount s = record s {
  dynamic =
      update asset_id
        (record (s.dynamic asset_id) {
          current_supply = (s.dynamic asset_id).current_supply -ℤ pos amount;
        })
        s.dynamic;
}

-- The new `total_core_in_orders` of the borrower: what is freed is taken off, of whatever asset it is.
abbrev pub core_left : ℕ → Asset → ℤ → ℤ
core_left freed pays total =
    (if ltb 0 freed then total -ℤ pos freed else total)
    -ℤ pos (if pays.asset_id == core_asset then pays.amount else 0)

abbrev pub set_core : ℕ → ℤ → Market → Market
set_core account total s = record s {
  statistics =
      update account (record (s.statistics account) { total_core_in_orders = total }) s.statistics;
}

-- What the borrower gets back, and the statistics.
unfoldable pub free_collateral : CallOrder → Bool → Asset → Market → Result Market
unfolding adjust_balance
free_collateral o closed pays s = elim closed [
  | true ↦ credit o.borrower (get_collateral o) s >>= λ t.
      let total = core_left o.collateral pays (t.statistics o.borrower).total_core_in_orders in
      guard (leb_ℤ (pos 0) total) undefined >> ok (set_core o.borrower total t)
  | false ↦
      let total = core_left 0 pays (s.statistics o.borrower).total_core_in_orders in
      elim (pays.asset_id == core_asset) [
        | true ↦ guard (leb_ℤ (pos 0) total) undefined >> ok (set_core o.borrower total s)
        | false ↦ ok s
      ]
]

-- `fill_order` of a call order
unfoldable pub fill_call_order : ℕ → Asset → Asset → Price → Bool → Market → Result (Bool × Market)
unfolding lookup insert erase asset_le free_collateral
fill_call_order id pays receives fill_price is_maker s = do
  o ← or_fail (lookup id s.calls) undefined
  guard (o.call_price.quote.asset_id == receives.asset_id) assertion
  guard (o.call_price.base.asset_id == pays.asset_id) assertion
  fits ← asset_le pays (get_collateral o)
  guard fits assertion
  guard (leb receives.amount o.debt) undefined
  let rest : CallOrder = record o {
    debt = o.debt - receives.amount;
    collateral = o.collateral - pays.amount;
  }
  let closed = rest.debt == 0
  t ← free_collateral rest closed pays (
      lower_supply receives.asset_id receives.amount
        (set_call id (record rest { collateral = if closed then 0 else rest.collateral }) s))
  guard (not (pays.asset_id == receives.asset_id)) undefined
  let u =
      push_applied
        (fill_order_operation id o.borrower pays receives
          (record { amount = 0; asset_id = pays.asset_id }) fill_price is_maker)
        t
  ok (closed, record u { calls = if closed then erase id u.calls else u.calls })

-- `fill_order` of a force settlement
unfoldable pub fill_settlement : ℕ → Asset → Asset → Price → Bool → Market → Result (Bool × Market)
unfolding lookup insert erase asset_lt pay_market_fees adjust_balance
fill_settlement id pays receives fill_price is_maker s = do
  o ← or_fail (lookup id s.settlements) undefined
  (fee, t) ← pay_market_fees receives s
  partly ← asset_lt pays o.balance
  let rest : ForceSettlement = record o {
    balance = record o.balance { amount = o.balance.amount - pays.amount };
  }
  u ←
      credit o.owner (record receives { amount = receives.amount - fee })
        (record t { settlements = if partly then insert id rest t.settlements else t.settlements })
  guard (not (pays.asset_id == receives.asset_id)) undefined
  let v =
      push_applied
        (fill_order_operation id o.owner pays receives (record receives { amount = fee }) fill_price
          is_maker)
        u
  ok (
    not partly,
    record v { settlements = if partly then v.settlements else erase id v.settlements },
  )

abbrev pub smaller : Asset → Asset → Result Asset
smaller a b = asset_lt b a >>= λ less. ok (if less then b else a)

-- The call order is the maker, and the settlement the taker.
abbrev pub fill_both : ℕ → ℕ → Asset → Asset → Price → Market → Result (Asset × Market)
fill_both call_id settle_id call_pays call_receives match_price s =
    fill_call_order call_id call_pays call_receives match_price true s >>= λ t.
    fill_settlement settle_id call_receives call_pays match_price false (t.1) >>= λ u.
    ok (call_receives, u.1)

-- `match` of a call order and a force settlement
unfoldable pub match_settlement : ℕ → ℕ → Price → Asset → Market → Result (Asset × Market)
unfolding lookup times asset_eq asset_lt fill_call_order fill_settlement
match_settlement call_id settle_id match_price max_settlement s = do
  call ← or_fail (lookup call_id s.calls) undefined
  settle ← or_fail (lookup settle_id s.settlements) undefined
  guard (call.call_price.quote.asset_id == settle.balance.asset_id) assertion
  guard (ltb 0 call.debt && ltb 0 call.collateral && ltb 0 settle.balance.amount) assertion
  settle_for_sale ← smaller settle.balance max_settlement
  call_receives ← smaller settle_for_sale (get_debt call)
  call_pays ← times call_receives match_price
  enough ← asset_lt call_pays (get_collateral call)
  guard enough black_swan
  guard (asset_eq call_receives settle_for_sale || asset_eq call_receives (get_debt call)) undefined
  fill_both call_id settle_id call_pays call_receives match_price s

-- `cancel_order` of a force settlement
unfoldable pub cancel_settlement : ℕ → Bool → Market → Result Market
unfolding lookup erase adjust_balance
cancel_settlement id create_virtual_op s = do
  o ← or_fail (lookup id s.settlements) undefined
  t ← credit o.owner o.balance s
  ok (record t {
    settlements = erase id t.settlements;
    applied =
        if create_virtual_op
        then asset_settle_cancel_operation id o.owner o.balance ∷ t.applied
        else t.applied;
  })

-- `cancel_bid`
unfoldable pub cancel_bid : ℕ → Bool → Market → Result Market
unfolding lookup erase adjust_balance
cancel_bid id create_virtual_op s = do
  bid ← or_fail (lookup id s.bids) undefined
  t ← credit bid.bidder bid.inv_swan_price.base s
  ok (record t {
    bids = erase id t.bids;
    applied =
        if create_virtual_op
        then bid_collateral_operation bid.bidder bid.inv_swan_price.base
            (record { amount = 0; asset_id = bid.inv_swan_price.quote.asset_id })
          ∷ t.applied
        else t.applied;
  })

-- `execute_bid`. `call_id` is the id that the new call order gets.
unfoldable pub execute_bid : (Ratio → Ratio) → ℕ → ℕ → ℕ → ℕ → ℕ → Market → Result Market
unfolding lookup insert erase call_price
execute_bid reduce call_id id debt_covered collateral_from_fund maintenance_collateral_ratio s = do
  bid ← or_fail (lookup id s.bids) undefined
  let collateral : Asset = record bid.inv_swan_price.base {
    amount = bid.inv_swan_price.base.amount + collateral_from_fund;
  }
  let debt : Asset = record { amount = debt_covered; asset_id = bid.inv_swan_price.quote.asset_id }
  p ← call_price reduce debt collateral maintenance_collateral_ratio
  let call : CallOrder = record {
    borrower = bid.bidder;
    collateral = collateral.amount;
    debt = debt_covered;
    call_price = p;
  }
  let t = set_call call_id call s
  let total = (t.statistics bid.bidder).total_core_in_orders
  let u =
      set_core bid.bidder
        (if collateral.asset_id == core_asset then total +ℤ pos collateral.amount else total) t
  let v = push_applied (execute_bid_operation bid.bidder collateral debt) u
  ok (record v { bids = erase id v.bids })
