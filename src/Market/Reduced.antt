-- ===== src/Market/Reduced.antt =====
-- The end of a fill: the order is removed, or reduced and culled where it asks for nothing.
use karma_core.Base.{
  ℕ, ◌+◌, ◌-◌, ◌*◌, ◌≤◌, ◌≡◌, ◌≢◌, refl, Bool, true, false, List, none, some, ◌==◌, ok, err, arith,
  Bool-cases, inl, inr, Post, Post-map, Error, assertion, Result-cases, sym,
}
use native.Mathlib.Nat.{mul-le-mul}
use karma_core.Base.Dict.{lookup, insert, erase, lookup-insert, lookup-erase, insert-Distinct}
use karma_core.Assets.{Asset, Price, times, asset_eq}
use karma_core.Market.Types.{
  LimitOrder, amount_for_sale, amount_to_receive, FeeOptions, Market, core_asset,
}
use karma_core.Market.Fill.{
  calculate_market_fee, maybe_cull_small_order, reduce_order, hundred_percent,
}
use karma_core.Base.Sums.{sum_of-erase, sum_of-insert}
use karma_core.Market.Worth.{on, on_asset, in_order, worth, IsOrder, IsMarket}
use karma_core.Market.Cancelled.{Moved, erase-IsMarket, cancel_order_lem}

abbrev pub Refused : Error → Type 0
Refused e = e ≡ assertion

-- A fee of at most 100% is at most the amount.
pub calculate_market_fee_lem :
    (o : FeeOptions) (a : Asset)
    → o.market_fee_percent ≤ hundred_percent
    → calculate_market_fee o a ≤ a.amount
unfolding calculate_market_fee
calculate_market_fee_lem o a h =
    let x : a.amount * o.market_fee_percent ≤ a.amount * hundred_percent =
      mul-le-mul (omega arith) h in
    ground arith

-- The order whose amount is reduced is well formed.
insert-IsMarket :
    (hs : List ℕ) (id : ℕ) (o : LimitOrder) (s : Market)
    → IsMarket hs s
    → IsOrder hs o
    → IsMarket hs (record s { orders = insert id o s.orders })
insert-IsMarket hs id o s h k = record {
  distinct = insert-Distinct id o s.orders h.distinct;
  order = λ j q e.
      let x = lookup-insert id j o s.orders in
      elim (Bool-cases (j == id)) [
        | inl f ↦ let z : o ≡ q = ground arith in rw (sym z) k
        | inr f ↦ h.order j q (ground arith)
      ];
  percent = h.percent;
}

-- A conversion is refused by an assertion only.
pub times-Refused : (a : Asset) (p : Price) {e : Error} → times a p ≡ err e → Refused e
unfolding times
times-Refused a p f = ground arith

Moved-refl : (hs : List ℕ) (id : ℕ) (a : Asset) (s : Market) → IsMarket hs s → Moved hs id a a s s
Moved-refl hs id a s h = record {
  valid = h;
  worth_kept = λ i. refl;
  supply_kept = λ i. refl;
  others = λ j ne. refl;
}

-- An order that asks for nothing is cancelled; any other is left as it is.
abbrev pub Culled : List ℕ → ℕ → LimitOrder → Market → Bool × Market → Type 0
Culled hs id o s r =
    Moved hs id (amount_for_sale o) (amount_for_sale o) s (r.1)
    × (r.0 ≡ false → r.1 ≡ s)
    × (r.0 ≡ true → lookup id (r.1).orders ≡ none)

pub maybe_cull-Culled :
    (hs : List ℕ) (id : ℕ) (o : LimitOrder) (s : Market)
    → IsMarket hs s
    → lookup id s.orders ≡ some o
    → Post Refused (Culled hs id o s) (maybe_cull_small_order id s)
unfolding maybe_cull_small_order
maybe_cull-Culled hs id o s h e = elim (Result-cases (amount_to_receive o)) [
  | inl (r, f) ↦ elim (Bool-cases (r.amount == 0)) [
    | inl g ↦
        let (t, k, gone, _, m, _) = cancel_order_lem hs id o s h e true in
        let q : maybe_cull_small_order id s ≡ ok (true, t) = ground arith in
        rw q (m, λ z. absurd cc, λ z. gone)
    | inr g ↦
        let q : maybe_cull_small_order id s ≡ ok (false, s) = ground arith in
        rw q (Moved-refl hs id (amount_for_sale o) s h, λ z. refl, λ z. absurd cc)
  ]
  | inr (x, f) ↦
      let q : maybe_cull_small_order id s ≡ err x = ground arith in
      rw q (times-Refused (amount_for_sale o) o.sell_price f)
]

-- The order is still in the book, at its price.
abbrev pub Remains : ℕ → LimitOrder → Market → Type 0
Remains id o t = (o' : LimitOrder) × (lookup id t.orders ≡ some o') × (o'.sell_price ≡ o.sell_price)

-- What the end of `fill_order` does: the amount paid and the deferred fee leave the order.
pub record Reduced (hs : List ℕ) (id : ℕ) (o : LimitOrder) (pays : Asset) (s : Market)
    (r : Bool × Market) : Type 0 where
  pub valid : IsMarket hs (r.1)
  pub worth_kept :
      (i : ℕ) → worth hs i (r.1) + on_asset i pays + on i core_asset o.deferred_fee ≡ worth hs i s
  pub supply_kept : (i : ℕ) → ((r.1).dynamic i).current_supply ≡ (s.dynamic i).current_supply
  pub others : (j : ℕ) → j ≢ id → lookup j (r.1).orders ≡ lookup j s.orders
  pub removed : pays.amount ≡ o.for_sale → r.0 ≡ true
  pub remains : r.0 ≡ false → Remains id o (r.1)
  pub gone : r.0 ≡ true → lookup id (r.1).orders ≡ none

module _ (hs : List ℕ) (id : ℕ) (o : LimitOrder) (pays : Asset) (s : Market) (h : IsMarket hs s)
    (e : lookup id s.orders ≡ some o) (same : pays.asset_id ≡ o.sell_price.base.asset_id) where
  removed-Reduced :
      asset_eq pays (amount_for_sale o) ≡ true
      → Reduced hs id o pays s (true, record s { orders = erase id s.orders })
  unfolding asset_eq
  removed-Reduced f =
      let v = erase-IsMarket hs id s h in
      record {
        valid = record { distinct = v.distinct; order = v.order; percent = v.percent };
        worth_kept = λ i.
            let x = sum_of-erase (in_order i) id o s.orders h.distinct e in
            let y : pays.amount ≡ o.for_sale = ground arith in rw (same, y) (omega arith);
        supply_kept = λ i. refl;
        others = λ j ne. let x = lookup-erase id j s.orders in ground arith;
        removed = λ z. refl;
        remains = λ z. absurd cc;
        gone = λ z. let x = lookup-erase id id s.orders in ground arith;
      }

  abbrev rest : LimitOrder
  rest = record o { for_sale = o.for_sale - pays.amount; deferred_fee = 0 }

  abbrev reduced : Market
  reduced = record s { orders = insert id rest s.orders }

  reduced-IsMarket :
      asset_eq pays (amount_for_sale o) ≡ false → pays.amount ≤ o.for_sale → IsMarket hs reduced
  unfolding asset_eq
  reduced-IsMarket f le =
      let k = h.order id o e in
      let x = k.for_sale_fits in
      insert-IsMarket hs id rest s h (record {
        known = k.known;
        proper = k.proper;
        two_assets = k.two_assets;
        for_sale_pos = ground arith;
        for_sale_fits = omega arith;
      })

  reduced-Reduced :
      (r : Bool × Market)
      → pays.amount ≤ o.for_sale
      → asset_eq pays (amount_for_sale o) ≡ false
      → Culled hs id rest reduced r
      → Reduced hs id o pays s r
  unfolding asset_eq
  reduced-Reduced r le f (m, k, gone) = record {
    valid = m.valid;
    worth_kept = λ i.
        let x = sum_of-insert (in_order i) id rest o s.orders e in
        let y = m.worth_kept i in rw same (ground arith);
    supply_kept = m.supply_kept;
    others =
        λ j ne. let x = lookup-insert id j rest s.orders in let y = m.others j ne in ground arith;
    removed = λ z. absurd (ground arith);
    remains = λ z. let x = lookup-insert id id rest s.orders in rw (k z) (rest, ground arith, refl);
    gone = gone;
  }

  pub reduce_order-Reduced :
      (cull_if_small : Bool)
      → pays.amount ≤ o.for_sale
      → Post Refused (Reduced hs id o pays s) (reduce_order id o pays cull_if_small s)
  unfolding reduce_order
  reduce_order-Reduced cull le = elim (Bool-cases (asset_eq pays (amount_for_sale o))) [
    | inl f ↦
        let q : reduce_order id o pays cull s ≡ ok (true, record s { orders = erase id s.orders }) =
          ground arith in
        rw q (removed-Reduced f)
    | inr f ↦
        let v = reduced-IsMarket f le in
        let x = lookup-insert id id rest s.orders in
        elim (Bool-cases cull) [
          | inl g ↦
              let q : reduce_order id o pays cull s ≡ maybe_cull_small_order id reduced =
                ground arith in
              rw q (
                Post-map Refused (Culled hs id rest reduced) (Reduced hs id o pays s)
                  (maybe_cull_small_order id reduced) (λ r m. reduced-Reduced r le f m)
                  (maybe_cull-Culled hs id rest reduced v (ground arith)))
          | inr g ↦
              let q : reduce_order id o pays cull s ≡ ok (false, reduced) = ground arith in
              rw q (
                reduced-Reduced (false, reduced) le f
                  (Moved-refl hs id (amount_for_sale rest) reduced v, λ z. refl, λ z. absurd cc))
        ]
  ]
