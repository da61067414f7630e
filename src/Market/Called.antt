-- ===== src/Market/Called.antt =====
-- A call order that is filled pays collateral and takes its debt out of the supply.
use karma_core.Base.{
  ℕ, ◌+◌, ◌-◌, ◌≤◌, ◌≡◌, ◌≢◌, inl, inr, refl, Bool, true, false, List, none, some, ◌==◌,
  if◌then◌else◌, ok, arith, Bool-cases, sym,
}
use karma_core.Base.Int.{ℤ, pos, ◌-ℤ◌, ◌≤ℤ◌, leb_ℤ}
use karma_core.Base.Dict.{
  Dict, lookup, insert, erase, Distinct, lookup-insert, insert-Distinct, lookup-erase,
}
use karma_core.Assets.{Asset, Price}
use karma_core.Assets.Order.{asset_le_same}
use karma_core.Permit.{Rows}
use karma_core.Market.Types.{
  CallOrder, get_collateral, AccountStatistics, AppliedOperation, Market, core_asset,
  fill_order_operation,
}
use karma_core.Market.Fill.{push_applied}
use karma_core.Market.Settle.{
  set_call, lower_supply, core_left, set_core, free_collateral, fill_call_order,
}
use karma_core.Base.Sums.{count, sum_over-ext, sum_of, sum_of-insert, sum_of-erase}
use karma_core.Market.Worth.{on_asset, in_call, pending, held, owed, worth, in_debt, debt_of}
use karma_core.Market.Moves.{credit-held}

module _ (hs : List ℕ) where
  set_core-owed : (a i : ℕ) (total : ℤ) (s : Market) → owed hs i (set_core a total s) ≡ owed hs i s
  set_core-owed a i total s =
      sum_over-ext hs (λ b. pending i (s.statistics b))
        (λ b. pending i ((set_core a total s).statistics b)) (λ b. ground arith)

  core_left_lem :
      (freed : ℕ) (pays : Asset) (total : ℤ)
      → pos (freed + pays.amount) ≤ℤ total
      → leb_ℤ (pos 0) (core_left freed pays total) ≡ true
  unfolding ◌-ℤ◌
  core_left_lem freed pays total h = ground arith

  free_collateral_lem :
      (o : CallOrder) (closed : Bool) (pays : Asset) (s : Market)
      → count o.borrower hs ≡ 1
      → pos (o.collateral + pays.amount) ≤ℤ (s.statistics o.borrower).total_core_in_orders
      → (rows : Rows) × (stats : (ℕ → AccountStatistics)) × (free_collateral o closed pays s
          ≡ ok (record s { balances = rows; statistics = stats }))
        × ((i : ℕ)
            → held hs i (record s { balances = rows })
              ≡ held hs i s + (if closed then in_call i o else 0))
        × ((i : ℕ) → owed hs i (record s { statistics = stats }) ≡ owed hs i s)
  unfolding free_collateral
  free_collateral_lem o true pays s c h =
      let (rows, e, f) = credit-held hs o.borrower (get_collateral o) s c in
      let total = core_left o.collateral pays (s.statistics o.borrower).total_core_in_orders in
      let x = core_left_lem o.collateral pays (s.statistics o.borrower).total_core_in_orders h in
      (
        rows,
        (set_core o.borrower total s).statistics,
        rw (e, x) refl,
        f,
        λ i. set_core-owed o.borrower i total s,
      )
  free_collateral_lem o false pays s c h = elim (Bool-cases (pays.asset_id == core_asset)) [
    | inl z ↦
        let total = core_left 0 pays (s.statistics o.borrower).total_core_in_orders in
        let x = core_left_lem 0 pays (s.statistics o.borrower).total_core_in_orders (omega arith) in
        (
          s.balances,
          (set_core o.borrower total s).statistics,
          ground arith,
          λ i. omega arith,
          λ i. set_core-owed o.borrower i total s,
        )
    | inr z ↦ (s.balances, s.statistics, ground arith, λ i. omega arith, λ i. refl)
  ]

choose :
    (P : Dict CallOrder → Type 0) (c : Bool) (a b : Dict CallOrder)
    → (c ≡ true → P a)
    → (c ≡ false → P b)
    → P (if c then a else b)
choose P true a b f g = f refl
choose P false a b f g = g refl

-- The call order paid `pays` of its collateral and got `receives` of its debt.
pub record Called (hs : List ℕ) (pays receives : Asset) (s t : Market) : Type 0 where
  pub worth_lost : (i : ℕ) → worth hs i t + on_asset i pays ≡ worth hs i s
  pub supply_lost :
      (i : ℕ)
      → (t.dynamic i).current_supply ≡ (
          if i == receives.asset_id
          then (s.dynamic i).current_supply -ℤ pos receives.amount
          else (s.dynamic i).current_supply)
  pub debt_lost : (i : ℕ) → debt_of i t + on_asset i receives ≡ debt_of i s
  pub orders_kept : t.orders ≡ s.orders
  pub settlements_kept : t.settlements ≡ s.settlements
  pub options_kept : t.fee_options ≡ s.fee_options

module _ (hs : List ℕ) (id : ℕ) (o : CallOrder) (pays receives : Asset) (price : Price)
    (is_maker : Bool) (s : Market) (d : Distinct s.calls) (e : lookup id s.calls ≡ some o)
    (c : count o.borrower hs ≡ 1) (same : o.call_price.base.asset_id ≡ pays.asset_id)
    (same' : o.call_price.quote.asset_id ≡ receives.asset_id)
    (apart : pays.asset_id ≢ receives.asset_id) (fits : pays.amount ≤ o.collateral)
    (fits' : receives.amount ≤ o.debt)
    (core : pos o.collateral ≤ℤ (s.statistics o.borrower).total_core_in_orders) where
  abbrev rest : CallOrder
  rest = record o { debt = o.debt - receives.amount; collateral = o.collateral - pays.amount }

  abbrev closed : Bool
  closed = rest.debt == 0

  abbrev kept : CallOrder
  kept = record rest { collateral = if closed then 0 else rest.collateral }

  abbrev lowered : Market
  lowered = lower_supply receives.asset_id receives.amount (set_call id kept s)

  abbrev fill_operation : AppliedOperation
  fill_operation =
      fill_order_operation id o.borrower pays receives
        (record { amount = 0; asset_id = pays.asset_id }) price is_maker

  left_calls :
      (i : ℕ)
      → sum_of
            (in_call i)
            (if closed then erase id (insert id kept s.calls) else insert id kept s.calls)
          + (if closed then in_call i rest else 0)
          + in_call i o
        ≡ sum_of (in_call i) s.calls + in_call i rest
  left_calls i =
      let x = sum_of-insert (in_call i) id kept o s.calls e in
      let y = lookup-insert id id kept s.calls in
      let z =
        sum_of-erase (in_call i) id kept (insert id kept s.calls)
          (insert-Distinct id kept s.calls d) (ground arith) in
      elim (Bool-cases closed) [ inl q ↦ rw q (ground arith) | inr q ↦ rw q (ground arith) ]

  left_debt :
      (i : ℕ)
      → sum_of
            (in_debt i)
            (if closed then erase id (insert id kept s.calls) else insert id kept s.calls)
          + on_asset i receives
        ≡ sum_of (in_debt i) s.calls
  left_debt i =
      let x = sum_of-insert (in_debt i) id kept o s.calls e in
      let y = lookup-insert id id kept s.calls in
      let z =
        sum_of-erase (in_debt i) id kept (insert id kept s.calls)
          (insert-Distinct id kept s.calls d) (ground arith) in
      let w : in_debt i kept + on_asset i receives ≡ in_debt i o = rw (sym same') (ground arith) in
      choose (λ m. sum_of (in_debt i) m + on_asset i receives ≡ sum_of (in_debt i) s.calls) closed
        (erase id (insert id kept s.calls)) (insert id kept s.calls)
        (λ q. let v : in_debt i kept ≡ 0 = ground arith in omega (arith, x, z, w, v))
        (λ q. omega (arith, x, w))

  left_order :
      lookup id (if closed then erase id (insert id kept s.calls) else insert id kept s.calls)
      ≡ (if receives.amount == o.debt then none else some rest)
  left_order =
      let x = lookup-insert id id kept s.calls in
      let y = lookup-erase id id (insert id kept s.calls) in
      let z : (closed ≡ (receives.amount == o.debt)) = ground arith in
      elim (Bool-cases closed) [
        | inl q ↦ rw (sym z, q) (ground arith)
        | inr q ↦ rw (sym z, q) (ground arith)
      ]

  lowered_fees : (i : ℕ) → (lowered.dynamic i).accumulated_fees ≡ (s.dynamic i).accumulated_fees
  lowered_fees i = ground arith

  paid_in_call : (i : ℕ) → in_call i rest + on_asset i pays ≡ in_call i o
  paid_in_call i = rw (sym same) (ground arith)

  -- A call order of two assets that pays no more than its collateral, for no more than its debt, is
  -- filled, where the borrower's statistics count that collateral: of each asset what it pays is gone,
  -- the supply and the debt are lowered by what it receives, and it is reported as closed, and removed,
  -- where that was all its debt; otherwise it stays with the rest of its debt and collateral.
  pub fill_call_order_lem :
      (t : Market) × (fill_call_order id pays receives price is_maker s
        ≡ ok (receives.amount == o.debt, t))
      × Called hs pays receives s t
      × (lookup id t.calls ≡ (if receives.amount == o.debt then none else some rest))
  unfolding fill_call_order
  fill_call_order_lem =
      let le = asset_le_same pays (get_collateral o) (sym same) in
      let (rows, stats, f, g, w) =
        free_collateral_lem hs rest closed pays lowered c (omega arith) in
      let u : Market =
        push_applied fill_operation (record lowered { balances = rows; statistics = stats }) in
      let t : Market = record u { calls = if closed then erase id u.calls else u.calls } in
      let z : (closed ≡ (receives.amount == o.debt)) = ground arith in
      (
        t,
        ground arith,
        record {
          worth_lost = λ i. omega (arith, left_calls i, lowered_fees i, paid_in_call i, g i, w i);
          supply_lost = λ i. ground arith;
          debt_lost = left_debt;
          orders_kept = refl;
          settlements_kept = refl;
          options_kept = refl;
        },
        left_order,
      )
