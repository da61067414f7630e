-- ===== src/Market/Match.antt =====
-- `match` of two limit orders. The first is new, and so the taker; the price is the second's.
use karma_core.Base.{
  ℕ, ◌+◌, Bool, true, false, ◌&&◌, ◌||◌, not, ltb, ◌==◌, if◌then◌else◌, Result, ok, guard, or_fail,
  undefined, ◌>>=◌, ◌>>◌,
}
use karma_core.Base.Dict.{lookup}
use karma_core.Assets.{Asset, Price, asset_eq, asset_le, times}
use karma_core.Market.Types.{amount_for_sale, Market}
use karma_core.Market.Fill.{fill_limit_order}

-- What the first order receives and what the second does.
unfoldable pub traded : Asset → Asset → Price → Result (Asset × Asset)
unfolding times asset_le
traded usd_for_sale core_for_sale match_price = do
  core_worth ← times core_for_sale match_price
  fits ← asset_le usd_for_sale core_worth
  elim fits [
    | true ↦ times usd_for_sale match_price >>= λ usd_receives. ok (usd_receives, usd_for_sale)
    | false ↦ times core_for_sale match_price >>= λ core_receives. ok (core_for_sale, core_receives)
  ]

-- The bit field of the orders that were filled.
abbrev pub filled : Bool → Bool → ℕ
filled usd core = (if usd then 1 else 0) + (if core then 2 else 0)

abbrev pub report : Bool → Bool → Market → Result (ℕ × Market)
report usd core s = guard (not (filled usd core == 0)) undefined >> ok (filled usd core, s)

-- The two fills.
unfoldable pub exchange : ℕ → ℕ → Asset → Asset → Price → Market → Result (ℕ × Market)
unfolding fill_limit_order
exchange usd_id core_id usd_receives core_receives match_price s =
    fill_limit_order usd_id core_receives usd_receives false match_price false s >>= λ usd.
    fill_limit_order core_id usd_receives core_receives true match_price true (usd.1) >>= λ core.
    report (usd.0) (core.0) (core.1)

unfoldable pub match_orders : ℕ → ℕ → Price → Market → Result (ℕ × Market)
unfolding lookup traded asset_eq exchange
match_orders usd_id core_id match_price s = do
  usd ← or_fail (lookup usd_id s.orders) undefined
  core ← or_fail (lookup core_id s.orders) undefined
  guard (usd.sell_price.quote.asset_id == core.sell_price.base.asset_id) undefined
  guard (usd.sell_price.base.asset_id == core.sell_price.quote.asset_id) undefined
  guard (ltb 0 usd.for_sale && ltb 0 core.for_sale) undefined
  (usd_receives, core_receives) ← traded (amount_for_sale usd) (amount_for_sale core) match_price
  guard
      (asset_eq core_receives (amount_for_sale usd) || asset_eq usd_receives (amount_for_sale core))
      undefined
  exchange usd_id core_id usd_receives core_receives match_price s
