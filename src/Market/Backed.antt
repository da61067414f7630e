-- ===== src/Market/Backed.antt =====
-- A match of a call order and a force settlement keeps every asset backed.
use karma_core.Base.{
  ℕ, ◌^◌, ◌≤◌, ◌<◌, ◌≡◌, ◌≢◌, ◌⊎◌, ◌||◌, List, some, ltb, Result, ok, err, ◌>>=◌, ◌>>◌, guard, none,
  Error, assertion, ◌==◌, if◌then◌else◌, ◌-◌, ◌+◌, undefined, black_swan, min,
}
use karma_core.Base.Int.{pos, ◌≤ℤ◌, ◌-ℤ◌}
use karma_core.Base.Dict.{lookup, Distinct}
use karma_core.Assets.{Asset, Price, times, asset_lt, asset_eq}
use karma_core.Assets.Order.{IsProper}
use karma_core.Market.Types.{CallOrder, get_collateral, get_debt, ForceSettlement, Market}
use karma_core.Market.Fill.{hundred_percent}
use karma_core.Market.Settle.{fill_both}
use karma_core.Base.Sums.{count}
use karma_core.Market.Worth.{on_asset, debt_of}
use karma_core.Market.Settled.{IsBacked}

-- What a match of a call order and a settlement relies on: both stand in the book once, their accounts
-- are known, the borrower's statistics count the collateral, and the amounts are positive, of 63 bits.
pub record IsCallable (hs : List ℕ) (call_id settle_id : ℕ) (call : CallOrder)
    (settle : ForceSettlement) (s : Market) : Type 0 where
  pub call_found : lookup call_id s.calls ≡ some call
  pub settle_found : lookup settle_id s.settlements ≡ some settle
  pub calls_distinct : Distinct s.calls
  pub settlements_distinct : Distinct s.settlements
  pub borrower_known : count call.borrower hs ≡ 1
  pub owner_known : count settle.owner hs ≡ 1
  pub same_debt : call.call_price.quote.asset_id ≡ settle.balance.asset_id
  pub two_assets : call.call_price.base.asset_id ≢ call.call_price.quote.asset_id
  pub debt_pos : 0 < call.debt
  pub collateral_pos : 0 < call.collateral
  pub balance_pos : 0 < settle.balance.amount
  pub balance_fits : settle.balance.amount < 2 ^ 63
  pub counted : pos call.collateral ≤ℤ (s.statistics call.borrower).total_core_in_orders
  pub percent : (i : ℕ) → (s.fee_options i).market_fee_percent ≤ hundred_percent

-- The least of the settlement's balance, of what may be settled and of the call order's debt.
abbrev pub least : CallOrder → ForceSettlement → Asset → Asset
least call settle max_settlement = record {
  amount = min (min settle.balance.amount max_settlement.amount) call.debt;
  asset_id = settle.balance.asset_id;
}

module _ (hs : List ℕ) (call_id settle_id : ℕ) (call : CallOrder) (settle : ForceSettlement)
    (price : Price) (received : Asset) (s : Market) where
  -- What the call order pays, `received` and the market fee determine the trade.
  pub record Traded (pays : Asset) (t : Market) : Type 0 where
    pub backed : IsBacked hs t
    pub supply :
        (i : ℕ)
        → (t.dynamic i).current_supply ≡ (
            if i == received.asset_id
            then (s.dynamic i).current_supply -ℤ pos received.amount
            else (s.dynamic i).current_supply)
    pub debt_lost : (i : ℕ) → debt_of i t + on_asset i received ≡ debt_of i s
    pub call_left : lookup call_id t.calls ≡ (
        if received.amount == call.debt
        then none
        else some (record call {
          debt = call.debt - received.amount;
          collateral = call.collateral - pays.amount;
        }))
    pub settlement_left : lookup settle_id t.settlements ≡ (
        if ltb received.amount settle.balance.amount
        then some (record settle {
          balance = record settle.balance { amount = settle.balance.amount - received.amount };
        })
        else none)

  -- Why a match does not trade: the amount at the price is refused, or takes all the collateral.
  abbrev pub Stopped : Error → Type 0
  Stopped e =
      ((e ≡ assertion) × (times received price ≡ err assertion))
      ⊎ ((e ≡ black_swan)
          × ((pays : Asset) × (times received price ≡ ok pays) × (call.collateral ≤ pays.amount)))

  -- A trade returns what the call order received; it paid that amount at the price.
  abbrev pub Settles : Asset × Market → Type 0
  Settles r =
      (r.0 ≡ received) × ((pays : Asset) × (times received price ≡ ok pays) × Traded pays (r.1))

module _ (hs : List ℕ) (call_id settle_id : ℕ) (call : CallOrder) (settle : ForceSettlement)
    (price : Price) (max_settlement : Asset) (s : Market)
    (k : IsCallable hs call_id settle_id call settle s) (b : IsBacked hs s)
    (proper : IsProper price) (debt : price.base.asset_id ≡ call.call_price.quote.asset_id)
    (collateral : price.quote.asset_id ≡ call.call_price.base.asset_id)
    (same : max_settlement.asset_id ≡ settle.balance.asset_id) where
  abbrev received : Asset
  received = least call settle max_settlement

  abbrev after_price : Asset → Result (Asset × Market)
  after_price pays = asset_lt pays (get_collateral call) >>= λ enough.
      guard enough black_swan
      >> (guard
            (asset_eq received (record {
              amount = min settle.balance.amount max_settlement.amount;
              asset_id = settle.balance.asset_id;
            })
              || asset_eq received (get_debt call))
            undefined
          >> fill_both call_id settle_id pays received price s)
