-- ===== src/Market/Settled.antt =====
-- A force settlement that is filled, and its match with a call order: what is settled leaves the supply.
use karma_core.Base.{
  ℕ, ◌+◌, ◌-◌, ◌≤◌, ◌≡◌, ◌≢◌, refl, inl, inr, Bool, not, List, none, some, ltb, if◌then◌else◌, ok,
  arith, Bool-cases, sym, min,
}
use karma_core.Base.Int.{pos, ◌-ℤ◌}
use karma_core.Base.Dict.{lookup, insert, erase, Distinct, lookup-insert, lookup-erase}
use karma_core.Assets.{Asset, Price}
use karma_core.Assets.Order.{asset_lt_same}
use karma_core.Market.Types.{ForceSettlement, AppliedOperation, Market, fill_order_operation}
use karma_core.Market.Fill.{
  calculate_market_fee, collect, pay_market_fees, push_applied, hundred_percent,
}
use karma_core.Market.Settle.{fill_settlement, smaller}
use karma_core.Base.Sums.{count, sum_of, sum_of-insert, sum_of-erase}
use karma_core.Market.Worth.{on, on_asset, in_settlement, worth}
use karma_core.Market.Moves.{Gains, credit-Gains, Gains-held}
use karma_core.Market.Reduced.{calculate_market_fee_lem}
use karma_core.Market.Called.{Called}

module _ (hs : List ℕ) (id : ℕ) (o : ForceSettlement) (pays receives : Asset) (price : Price)
    (is_maker : Bool) (s : Market) (d : Distinct s.settlements)
    (e : lookup id s.settlements ≡ some o) (c : count o.owner hs ≡ 1)
    (same : pays.asset_id ≡ o.balance.asset_id) (apart : pays.asset_id ≢ receives.asset_id)
    (fits : pays.amount ≤ o.balance.amount)
    (percent : (s.fee_options receives.asset_id).market_fee_percent ≤ hundred_percent) where
  abbrev fee : ℕ
  fee = calculate_market_fee (s.fee_options receives.asset_id) receives

  abbrev partly : Bool
  partly = ltb pays.amount o.balance.amount

  abbrev rest : ForceSettlement
  rest = record o { balance = record o.balance { amount = o.balance.amount - pays.amount } }

  abbrev left : Asset
  left = record receives { amount = receives.amount - fee }

  -- After the fee and the reduction, before the payment.
  abbrev charged : Market
  charged = record (collect receives.asset_id fee s) {
    settlements = if partly then insert id rest s.settlements else s.settlements;
  }

  abbrev fill_operation : AppliedOperation
  fill_operation =
      fill_order_operation id o.owner pays receives (record receives { amount = fee }) price
        is_maker

  left_settlements :
      (i : ℕ)
      → sum_of
            (in_settlement i)
            (if partly then insert id rest s.settlements else erase id s.settlements)
          + on_asset i pays
        ≡ sum_of (in_settlement i) s.settlements
  left_settlements i =
      let x = sum_of-insert (in_settlement i) id rest o s.settlements e in
      let y = sum_of-erase (in_settlement i) id o s.settlements d e in
      elim (Bool-cases partly) [
        | inl q ↦ rw (q, same) (ground arith)
        | inr q ↦ rw (q, same) (ground arith)
      ]

  -- The asset's fees gain the market fee.
  collected :
      (i : ℕ)
      → (charged.dynamic i).accumulated_fees
        ≡ (s.dynamic i).accumulated_fees + on i receives.asset_id fee
  collected i = ground arith

  left_settlement :
      lookup id (if partly then insert id rest s.settlements else erase id s.settlements)
      ≡ (if partly then some rest else none)
  left_settlement =
      let x = lookup-insert id id rest s.settlements in
      let y = lookup-erase id id s.settlements in
      elim (Bool-cases partly) [ inl q ↦ rw q (ground arith) | inr q ↦ rw q (ground arith) ]

  whole : (i : ℕ) → on_asset i left + on i receives.asset_id fee ≡ on_asset i receives
  whole i =
      let z = calculate_market_fee_lem (s.fee_options receives.asset_id) receives percent in
      ground arith

  -- A settlement that pays no more than its balance, for an amount of another asset whose market fee
  -- is at most 100%, is filled: what it pays is gone and what it receives has come, fees included, the
  -- owner gains what it receives less the fee and no other balance changes, the supplies and the call
  -- orders stay, and it is reported as filled, and removed, where it paid all its balance.
  pub fill_settlement_lem :
      (t : Market) × (fill_settlement id pays receives price is_maker s
        ≡ ok (not (ltb pays.amount o.balance.amount), t))
      × ((i : ℕ) → worth hs i t + on_asset i pays ≡ worth hs i s + on_asset i receives)
      × ((i : ℕ) → (t.dynamic i).current_supply ≡ (s.dynamic i).current_supply)
      × (t.calls ≡ s.calls)
      × (lookup id t.settlements ≡ (if partly then some rest else none))
      × Gains o.owner left s.balances t.balances
  unfolding fill_settlement pay_market_fees
  fill_settlement_lem =
      let lt = asset_lt_same pays o.balance same in
      let z = calculate_market_fee_lem (s.fee_options receives.asset_id) receives percent in
      let (rows, f, k) = credit-Gains o.owner left charged in
      let g = Gains-held hs o.owner left charged rows c k in
      let u : Market = push_applied fill_operation (record charged { balances = rows }) in
      let t : Market = record u {
        settlements = if partly then insert id rest s.settlements else erase id s.settlements;
      } in
      (
        t,
        ground arith,
        λ i. omega (arith, left_settlements i, collected i, g i, whole i),
        λ i. ground arith,
        refl,
        left_settlement,
        k,
      )

-- Everything that there is of an asset is its supply.
abbrev pub IsBacked : List ℕ → Market → Type 0
IsBacked hs s = (i : ℕ) → (s.dynamic i).current_supply ≡ pos (worth hs i s)

pub smaller_lem :
    (a b : Asset)
    → a.asset_id ≡ b.asset_id
    → smaller a b ≡ ok (record { amount = min a.amount b.amount; asset_id = a.asset_id })
smaller_lem a b e =
    let x = asset_lt_same b a (sym e) in
    elim (Bool-cases (ltb b.amount a.amount)) [
      | inl z ↦ rw (x, z) (ground arith)
      | inr z ↦ rw (x, z) (ground arith)
    ]

-- The supply that a call order lowers is what the settlement pays.
sub_pos : (a b : ℕ) → b ≤ a → pos a -ℤ pos b ≡ pos (a - b)
unfolding ◌-ℤ◌
sub_pos a b h = ground arith

pub both-IsBacked :
    (hs : List ℕ) (call_pays call_receives : Asset) (s t u : Market)
    → IsBacked hs s
    → Called hs call_pays call_receives s t
    → ((i : ℕ) → worth hs i u + on_asset i call_receives ≡ worth hs i t + on_asset i call_pays)
    → ((i : ℕ) → (u.dynamic i).current_supply ≡ (t.dynamic i).current_supply)
    → IsBacked hs u
both-IsBacked hs p r s t u h m w q i =
    let a = m.worth_lost i in
    let b = m.supply_lost i in
    let c = w i in
    let d = q i in let e = h i in let f = sub_pos (worth hs i s) r.amount in ground arith
