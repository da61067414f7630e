-- ===== src/Market/Priority.antt =====
-- The orders of the book that a new order meets, and their order.
use karma_core.Base.{
  ℕ, ◌*◌, ◌≡◌, ◌≢◌, refl, Bool, true, false, ◌&&◌, ◌==◌, ltb, leb, if◌then◌else◌, Option, none,
  some, List, [], ◌∷◌, arith, Bool-cases, Option-cases, inl, inr, ◌∙◌,
}
use native.Mathlib.Nat.{mul_comm}
use karma_core.Base.Dict.{Dict, lookup, Distinct}
use karma_core.Assets.{Price, price_eq, price_lt, price_le, price_gt, invert, max_share_supply}
use karma_core.Assets.Order.{IsProper, price_lt_exact, price_eq_exact}
use karma_core.Market.Types.{LimitOrder, Market}
use karma_core.Market.Book.{is_before, place, in_range, orders_between}
use karma_core.Market.Worth.{IsMarket}

-- The old order sells what the new one buys, for what it sells, at a price that the new one accepts: the
-- product of what they ask is at most that of what they give. A price above the greatest one,
-- of all the share supply for 1, is not met.
abbrev pub meets : LimitOrder → LimitOrder → Bool
meets new old =
    (old.sell_price.base.asset_id == new.sell_price.quote.asset_id)
    && (old.sell_price.quote.asset_id == new.sell_price.base.asset_id)
    && leb (new.sell_price.quote.amount * old.sell_price.quote.amount)
        (old.sell_price.base.amount * new.sell_price.base.amount)
    && leb old.sell_price.base.amount (max_share_supply * old.sell_price.quote.amount)

abbrev pub keep : (LimitOrder → Bool) → Option LimitOrder → Option LimitOrder
keep f none = none
keep f (some o) = if f o then some o else none

-- A greater price comes first, and of one price the lower id.
abbrev First : ℕ × LimitOrder → Dict LimitOrder → Type 0
First x [] = Unit
First x (y ∷ ys) = is_before x y ≡ true

abbrev pub Sorted : Dict LimitOrder → Type 0
Sorted [] = Unit
Sorted (x ∷ ys) = First x ys × Sorted ys

-- The orders that the new one meets are those of the market, and sorted.
pub record Met (new : LimitOrder) (s : Market) (fits : Dict LimitOrder) : Type 0 where
  pub in_order : Sorted fits
  pub found : (id : ℕ) → lookup id fits ≡ keep (meets new) (lookup id s.orders)

before_total : (x y : ℕ × LimitOrder) → x.0 ≢ y.0 → is_before x y ≡ false → is_before y x ≡ true
unfolding is_before
before_total x y ne e = ground arith

lookup-place :
    (j : ℕ) (x : ℕ × LimitOrder) (ys : Dict LimitOrder)
    → lookup (x.0) ys ≡ none
    → lookup j (place x ys) ≡ (if j == x.0 then some (x.1) else lookup j ys)
unfolding lookup place
lookup-place j x [] h = refl
lookup-place j x (y ∷ ys) h = elim (Bool-cases (is_before x y)) [
  | inl e ↦ rw e refl
  | inr e ↦
      let i = lookup-place j x ys (ground arith) in
      rw e (elim (Bool-cases (j == y.0)) [ inl z ↦ ground arith | inr z ↦ ground arith ])
]

place-First :
    (x y : ℕ × LimitOrder) (ys : Dict LimitOrder)
    → is_before y x ≡ true
    → First y ys
    → First y (place x ys)
unfolding place
place-First x y [] h f = h
place-First x y (z ∷ zs) h f = elim (Bool-cases (is_before x z)) [ inl e ↦ rw e h | inr e ↦ rw e f ]

place-Sorted :
    (x : ℕ × LimitOrder) (ys : Dict LimitOrder)
    → lookup (x.0) ys ≡ none
    → Sorted ys
    → Sorted (place x ys)
unfolding lookup place
place-Sorted x [] h s = (tt, tt)
place-Sorted x (y ∷ ys) h (f, s) = elim (Bool-cases (is_before x y)) [
  | inl e ↦ rw e (e, (f, s))
  | inr e ↦
      let b = before_total x y (ground arith) e in
      rw e (place-First x y ys b f, place-Sorted x ys (ground arith) s)
]

module _ (top max_price : Price) where
  lookup-between :
      (j : ℕ) (m : Dict LimitOrder)
      → Distinct m
      → lookup j (orders_between top max_price m) ≡ keep (in_range top max_price) (lookup j m)
  unfolding lookup orders_between
  lookup-between j [] d = refl
  lookup-between j ((id, o) ∷ m) (d, ds) =
      let i = lookup-between j m ds in
      let a = lookup-between id m ds in
      let n : lookup id (orders_between top max_price m) ≡ none = rw (a, d) refl in
      let p = lookup-place j (id, o) (orders_between top max_price m) n in
      elim (Bool-cases (in_range top max_price o)) [
        | inl e ↦ rw e (ground arith)
        | inr e ↦ rw e (ground arith)
      ]

  between-Sorted : (m : Dict LimitOrder) → Distinct m → Sorted (orders_between top max_price m)
  unfolding orders_between
  between-Sorted [] d = tt
  between-Sorted ((id, o) ∷ m) (d, ds) =
      let i = between-Sorted m ds in
      let a = lookup-between id m ds in
      let n : lookup id (orders_between top max_price m) ≡ none = rw (a, d) refl in
      elim (Bool-cases (in_range top max_price o)) [
        | inl e ↦ rw e (place-Sorted (id, o) (orders_between top max_price m) n i)
        | inr e ↦ rw e i
      ]

-- `max_price.max()` of a new order.
abbrev pub top_price : LimitOrder → Price
top_price new = record {
  base = record { amount = max_share_supply; asset_id = new.sell_price.quote.asset_id };
  quote = record { amount = 1; asset_id = new.sell_price.base.asset_id };
}

price_gt_exact :
    (a b : Price)
    → IsProper a
    → IsProper b
    → a.base.asset_id ≡ b.base.asset_id
    → a.quote.asset_id ≡ b.quote.asset_id
    → price_gt a b ≡ ltb (a.quote.amount * b.base.amount) (b.quote.amount * a.base.amount)
unfolding price_gt price_le
price_gt_exact a b h k e f =
    let x = price_lt_exact a b h k in let y = price_eq_exact a b h k in ground arith

-- No price of another market is between two of one.
pub outside :
    (top max_price : Price) (o : LimitOrder)
    → top.base.asset_id ≡ max_price.base.asset_id
    → top.quote.asset_id ≡ max_price.quote.asset_id
    → in_range top max_price o ≡ true
    → (o.sell_price.base.asset_id ≡ max_price.base.asset_id)
      × (o.sell_price.quote.asset_id ≡ max_price.quote.asset_id)
unfolding in_range price_gt price_le price_eq price_lt
outside top max_price o same same' e = (ground arith, ground arith)

in_range-meets :
    (new old : LimitOrder)
    → IsProper new.sell_price
    → IsProper old.sell_price
    → in_range (top_price new) (invert new.sell_price) old ≡ meets new old
unfolding in_range
in_range-meets new old h k =
    let p = new.sell_price in
    let q = old.sell_price in
    let t : IsProper (top_price new) = record {
      base_pos = omega arith;
      quote_pos = omega arith;
      base_fits = omega arith;
      quote_fits = omega arith;
    } in
    let m : IsProper (invert p) = record {
      base_pos = h.quote_pos;
      quote_pos = h.base_pos;
      base_fits = h.quote_fits;
      quote_fits = h.base_fits;
    } in
    elim (Bool-cases
      ((q.base.asset_id == p.quote.asset_id) && (q.quote.asset_id == p.base.asset_id))) [
        | inl e ↦
            let x = price_gt_exact q (top_price new) k t (ground arith) (ground arith) in
            let y = price_gt_exact (invert p) q m k (ground arith) (ground arith) in
            let z = mul_comm p.base.amount q.base.amount in
            let w = mul_comm q.quote.amount p.quote.amount in
            let v = mul_comm q.quote.amount max_share_supply in rw (x, y) (ground arith)
        | inr e ↦ elim (Bool-cases (in_range (top_price new) (invert p) old)) [
          | inl f ↦
              let (x, y) = outside (top_price new) (invert p) old refl refl f in
              absurd (ground arith)
          | inr f ↦ f ∙ ground arith
        ]
      ]

-- What the loop of `apply_order` walks over.
pub between-Met :
    (hs : List ℕ) (new_id : ℕ) (new : LimitOrder) (s : Market)
    → IsMarket hs s
    → lookup new_id s.orders ≡ some new
    → Met new s (orders_between (top_price new) (invert new.sell_price) s.orders)
between-Met hs new_id new s h e = record {
  in_order = between-Sorted (top_price new) (invert new.sell_price) s.orders h.distinct;
  found = λ id.
      let x = lookup-between (top_price new) (invert new.sell_price) id s.orders h.distinct in
      elim (Option-cases (lookup id s.orders)) [
        | inl f ↦ rw (x, f) refl
        | inr (o, f) ↦
            let k = h.order new_id new e in
            let l = h.order id o f in rw (x, f, in_range-meets new o k.proper l.proper) refl
      ];
}
