-- ===== src/Market/Cancelled.antt =====
-- A cancelled limit order gives back all that it held.
use karma_core.Base.{
  ℕ, ◌+◌, ◌≡◌, ◌≢◌, refl, Bool, true, false, ◌∷◌, List, none, some, ok, ◌>>=◌, arith, ◌==◌, ◌&&◌,
  if◌then◌else◌,
}
use karma_core.Base.Dict.{lookup, erase, lookup-erase, erase-Distinct}
use karma_core.Assets.{Asset}
use karma_core.Base.Int.{pos, ◌-ℤ◌}
use karma_core.Permit.{Rows, get_balance}
use karma_core.Market.Types.{
  LimitOrder, amount_for_sale, AppliedOperation, limit_order_cancel_operation, Market, core_asset,
}
use karma_core.Market.Fill.{release, credit, cancel_order}
use karma_core.Base.Sums.{sum_of-erase}
use karma_core.Market.Worth.{on_asset, in_order, held, worth, IsMarket}
use karma_core.Market.Moves.{credit-Gains, Gains-held, release-owed}

-- From `s` to `t`, an order is changed or removed: the other orders and each supply stay, the market
-- stays well formed, and of each asset `out` goes and `back` comes.
pub record Moved (hs : List ℕ) (id : ℕ) (out back : Asset) (s t : Market) : Type 0 where
  pub valid : IsMarket hs t
  pub worth_kept : (i : ℕ) → worth hs i t + on_asset i out ≡ worth hs i s + on_asset i back
  pub supply_kept : (i : ℕ) → (t.dynamic i).current_supply ≡ (s.dynamic i).current_supply
  pub others : (j : ℕ) → j ≢ id → lookup j t.orders ≡ lookup j s.orders

pub erase-IsMarket :
    (hs : List ℕ) (id : ℕ) (s : Market)
    → IsMarket hs s
    → IsMarket hs (record s { orders = erase id s.orders })
erase-IsMarket hs id s h = record {
  distinct = erase-Distinct id s.orders h.distinct;
  order = λ j o e. let x = lookup-erase id j s.orders in h.order j o (ground arith);
  percent = h.percent;
}

abbrev deferred : LimitOrder → Asset
deferred o = record { amount = o.deferred_fee; asset_id = core_asset }

-- The seller's balances gain what was for sale and the deferred fee, and no other balance changes.
abbrev Repaid : LimitOrder → Rows → Rows → Type 0
Repaid o before rows =
    (a i : ℕ)
    → get_balance a i rows
      ≡ get_balance a i before
        + (if a == o.seller then on_asset i (amount_for_sale o) + on_asset i (deferred o) else 0)

-- The order `o` has been given back to its seller.
pub record Refunded (o : LimitOrder) (s t : Market) : Type 0 where
  pub balances : Repaid o s.balances t.balances
  pub core_in_orders :
      (a : ℕ)
      → (t.statistics a).total_core_in_orders ≡ (
          if (a == o.seller) && (o.sell_price.base.asset_id == core_asset)
          then (s.statistics a).total_core_in_orders -ℤ pos o.for_sale
          else (s.statistics a).total_core_in_orders)
  pub pending_kept :
      (a : ℕ)
      → ((t.statistics a).pending_fees ≡ (s.statistics a).pending_fees)
        × ((t.statistics a).pending_vested_fees ≡ (s.statistics a).pending_vested_fees)
  pub fees_kept : (i : ℕ) → (t.dynamic i).accumulated_fees ≡ (s.dynamic i).accumulated_fees

-- The order's seller has been paid twice, and the order is removed.
abbrev refunded : ℕ → LimitOrder → Rows → List AppliedOperation → Market → Market
refunded id o rows ops s = record (release o.seller (amount_for_sale o) s) {
  balances = rows;
  orders = erase id s.orders;
  applied = ops;
}

module _ (hs : List ℕ) (id : ℕ) (o : LimitOrder) (s : Market) (h : IsMarket hs s)
    (e : lookup id s.orders ≡ some o) where
  refunded-Moved :
      (rows : Rows) (ops : List AppliedOperation)
      → ((i : ℕ)
          → held hs i (record s { balances = rows })
            ≡ held hs i s + on_asset i (amount_for_sale o) + on_asset i (deferred o))
      → ((i : ℕ) → worth hs i (refunded id o rows ops s) ≡ worth hs i s)
        × Moved hs id (amount_for_sale o) (amount_for_sale o) s (refunded id o rows ops s)
  refunded-Moved rows ops f =
      let w : (i : ℕ) → worth hs i (refunded id o rows ops s) ≡ worth hs i s = λ i. omega (
        arith,
        f i,
        release-owed hs o.seller i (amount_for_sale o) s,
        sum_of-erase (in_order i) id o s.orders h.distinct e,
      ) in
      let v = erase-IsMarket hs id s h in
      (
        w,
        record {
          valid = record { distinct = v.distinct; order = v.order; percent = v.percent };
          worth_kept = λ i. omega (arith, w i);
          supply_kept = λ i. refl;
          others = λ j ne. let x = lookup-erase id j s.orders in ground arith;
        },
      )

  -- The two payments of a cancellation.
  paid_twice :
      (rows : Rows) × ((credit o.seller (amount_for_sale o) (release o.seller (amount_for_sale o) s)
          >>= credit o.seller (deferred o))
        ≡ ok (record (release o.seller (amount_for_sale o) s) { balances = rows }))
      × Repaid o s.balances rows
      × ((i : ℕ)
          → held hs i (record s { balances = rows })
            ≡ held hs i s + on_asset i (amount_for_sale o) + on_asset i (deferred o))
  paid_twice =
      let k = h.order id o e in
      let (r1, e1, g1) =
        credit-Gains o.seller (amount_for_sale o) (release o.seller (amount_for_sale o) s) in
      let s1 : Market = record (release o.seller (amount_for_sale o) s) { balances = r1 } in
      let (r2, e2, g2) = credit-Gains o.seller (deferred o) s1 in
      let f1 = Gains-held hs o.seller (amount_for_sale o) s r1 k.known g1 in
      let f2 = Gains-held hs o.seller (deferred o) s1 r2 k.known g2 in
      (
        r2,
        rw e1 e2,
        λ b i. let x = g1 b i in let y = g2 b i in ground arith,
        λ i. omega (arith, f1 i, f2 i),
      )

  refunded-Refunded :
      (rows : Rows) (ops : List AppliedOperation)
      → Repaid o s.balances rows
      → Refunded o s (refunded id o rows ops s)
  refunded-Refunded rows ops g = record {
    balances = g;
    core_in_orders = λ a. ground arith;
    pending_kept = λ a. (ground arith, ground arith);
    fees_kept = λ i. refl;
  }

  -- In a well-formed market, an order that is in the book is cancelled: it is removed, the other orders
  -- stay, what was for sale and its deferred fee are added to the balances of the seller and to no
  -- other, the core asset that was for sale leaves the seller's `total_core_in_orders`, the pending
  -- fees and the fees of the assets stay, and nothing of any asset is created or lost.
  pub cancel_order_lem :
      (create_virtual_op : Bool)
      → (t : Market) × (cancel_order id create_virtual_op s ≡ ok t)
        × (lookup id t.orders ≡ none)
        × ((i : ℕ) → worth hs i t ≡ worth hs i s)
        × Moved hs id (amount_for_sale o) (amount_for_sale o) s t
        × Refunded o s t
  unfolding cancel_order
  cancel_order_lem true =
      let (rows, f, p, g) = paid_twice in
      let ops = limit_order_cancel_operation id o.seller ∷ s.applied in
      let x = lookup-erase id id s.orders in
      let (w, m) = refunded-Moved rows ops g in
      (refunded id o rows ops s, ground arith, ground arith, w, m, refunded-Refunded rows ops p)
  cancel_order_lem false =
      let (rows, f, p, g) = paid_twice in
      let x = lookup-erase id id s.orders in
      let (w, m) = refunded-Moved rows s.applied g in
      (
        refunded id o rows s.applied s,
        ground arith,
        ground arith,
        w,
        m,
        refunded-Refunded rows s.applied p,
      )
