-- ===== src/Market/Book.antt =====
-- `apply_order`: the calls of `check_call_orders`, and the loop over the orders of the other side.
use karma_core.Base.{
  ℕ, ◌&&◌, not, if◌then◌else◌, Bool, true, false, ltb, leb, ◌==◌, none, some, List, [], ◌∷◌, Result,
  ok, err, or_fail, undefined, ◌>>=◌, ◌||◌,
}
use karma_core.Base.Dict.{Dict, lookup}
use karma_core.Assets.{Price, price_gt, times, price_max, invert}
use karma_core.Market.Types.{LimitOrder, amount_to_receive, Market}
use karma_core.Market.Fill.{maybe_cull_small_order, hardfork_555_time}
use karma_core.Market.Match.{match_orders}

-- The index by price: a greater price comes first, and of one price the lower id.
unfoldable pub is_before : ℕ × LimitOrder → ℕ × LimitOrder → Bool
unfolding price_gt
is_before x y =
    if price_gt (x.1).sell_price (y.1).sell_price
    then true
    else if price_gt (y.1).sell_price (x.1).sell_price
    then false
    else ltb (x.0) (y.0)

unfoldable pub place : ℕ × LimitOrder → Dict LimitOrder → Dict LimitOrder
unfolding is_before
place x [] = x ∷ []
place x (y ∷ ys) = let rest = place x ys in if is_before x y then x ∷ y ∷ ys else y ∷ rest

-- From `lower_bound( top )` to `upper_bound( max_price )`.
unfoldable pub in_range : Price → Price → LimitOrder → Bool
unfolding price_gt
in_range top max_price o = not (price_gt o.sell_price top) && not (price_gt max_price o.sell_price)

unfoldable pub orders_between : Price → Price → Dict LimitOrder → Dict LimitOrder
unfolding place in_range
orders_between top max_price [] = []
orders_between top max_price ((id, o) ∷ m) =
    let rest = orders_between top max_price m in
    if in_range top max_price o then place (id, o) rest else rest

abbrev pub ids_of : Dict LimitOrder → List ℕ
ids_of [] = []
ids_of ((id, o) ∷ m) = id ∷ ids_of m

-- The old orders are met in the order of the book, each once: an order that is met is either filled,
-- and then the next one is met, or the loop ends.
unfoldable pub match_book : ℕ → List ℕ → Market → Result Market
unfolding lookup match_orders
match_book new_id [] s = ok s
match_book new_id (old_id ∷ ids) s = or_fail (lookup old_id s.orders) undefined >>= λ old.
    match_orders new_id old_id old.sell_price s >>= λ r. elim (r.0 == 2) [
      | true ↦ match_book new_id ids (r.1)
      | false ↦ ok (r.1)
    ]

-- Whether the new order is gone in the end.
unfoldable pub finish_order : ℕ → Market → Result (Bool × Market)
unfolding lookup maybe_cull_small_order
finish_order new_id s = elim (lookup new_id s.orders) [
  | none ↦ ok (true, s)
  | some o ↦ elim (leb s.head_block_time hardfork_555_time) [
    | true ↦ ok (false, s)
    | false ↦ maybe_cull_small_order new_id s
  ]
]

-- `is_market_issued` tells the assets that have bitasset data. `call_margins` is what `check_call_orders`
-- does for such an asset, after its first line: it is not modelled.
module _ (is_market_issued : ℕ → Bool)
    (call_margins : ℕ → Bool → Bool → Market → Result (Bool × Market)) where
  unfoldable pub check_call_orders : ℕ → Bool → Bool → Market → Result (Bool × Market)
  check_call_orders mia enable_black_swan for_new_limit_order s = elim (is_market_issued mia) [
    | false ↦ ok (false, s)
    | true ↦ call_margins mia enable_black_swan for_new_limit_order s
  ]

  -- The two calls, and whether either of them called some order.
  unfoldable pub check_both : ℕ → ℕ → Bool → Bool → Market → Result (Bool × Market)
  unfolding check_call_orders
  check_both sell_asset receive_asset allow_black_swan for_new_limit_order s = do
    (called_sell, t) ← check_call_orders sell_asset allow_black_swan for_new_limit_order s
    (called_receive, u) ← check_call_orders receive_asset allow_black_swan for_new_limit_order t
    ok (called_sell || called_receive, u)

  -- The loop over the book and what comes after it.
  unfoldable pub meet_book : ℕ → LimitOrder → ℕ → ℕ → Bool → Market → Result (Bool × Market)
  unfolding price_max orders_between match_book check_both finish_order
  meet_book new_id new sell_asset receive_asset allow_black_swan s = do
    top ← price_max new.sell_price.quote.asset_id new.sell_price.base.asset_id
    t ← match_book new_id (ids_of (orders_between top (invert new.sell_price) s.orders)) s
    (called_some, u) ← check_both sell_asset receive_asset allow_black_swan false t
    finish_order new_id u

  unfoldable pub apply_order : ℕ → Bool → Market → Result (Bool × Market)
  unfolding lookup times check_both meet_book
  apply_order new_id allow_black_swan s = do
    new ← or_fail (lookup new_id s.orders) undefined
    receives ← amount_to_receive new
    (called_some, t) ←
        check_both new.sell_price.base.asset_id receives.asset_id allow_black_swan true s
    elim (lookup new_id t.orders) [
      | none ↦ if called_some then ok (true, t) else err undefined
      | some left ↦
          meet_book new_id left new.sell_price.base.asset_id receives.asset_id allow_black_swan t
    ]
