-- ===== src/Assets/Rounding.antt =====
-- Conversion by a price rounds down, and converting back never gains.
use karma_core.Base.{ℕ, ◌+◌, ◌*◌, ◌/◌, ◌^◌, ◌≤◌, ◌<◌, ◌≡◌, ◌≢◌, ok, arith, sym, ◌∙◌}
use native.Mathlib.Nat.{div-mul-le_self, lt-div-mul-add, div-le_of_le-mul, mul-le-mul_right}
use karma_core.Assets.Types.{Asset}
use karma_core.Assets.Prices.{Price, convert, invert, times, max_share_supply}
use karma_core.Assets.Order.{IsProper, wide_exact}

-- An amount that `int64_t` holds is converted, by a proper price, from its base to its quote, if
-- `times` gives a value at all, to the exact ratio rounded down.
convert_lem :
    (amount : ℕ) (from to : Asset) {r : Asset}
    → amount < 2 ^ 63
    → to.amount < 2 ^ 63
    → convert amount from to ≡ ok r
    → (r.asset_id ≡ to.asset_id)
      × (0 < from.amount)
      × (r.amount ≡ amount * to.amount / from.amount)
      × (r.amount ≤ max_share_supply)
convert_lem amount from to {r = r} h k e =
    let x = wide_exact amount to.amount h k in
    (ground arith, ground arith, ground arith, ground arith)

-- An amount of the base of a proper price, times the price, is an amount of the quote: the exact
-- quotient rounded down.
pub times_rounding :
    (a : Asset) (p : Price) {r : Asset}
    → IsProper p
    → a.asset_id ≡ p.base.asset_id
    → a.amount < 2 ^ 63
    → times a p ≡ ok r
    → (r.asset_id ≡ p.quote.asset_id)
      × (r.amount * p.base.amount ≤ a.amount * p.quote.amount)
      × (a.amount * p.quote.amount < r.amount * p.base.amount + p.base.amount)
      × (r.amount ≤ max_share_supply)
unfolding times
times_rounding a p {r = r} h i f e =
    let (x, y, z, w) = convert_lem a.amount p.base p.quote {r = r} f h.quote_fits (ground arith) in
    let u = div-mul-le_self (a.amount * p.quote.amount) p.base.amount in
    let v = lt-div-mul-add {a = a.amount * p.quote.amount} h.base_pos in (x, rw z u, rw z v, w)

-- Converted by a proper price of two assets and back by its inverse, an amount never grows.
pub times-times-invert :
    (a : Asset) (p : Price) {r a' : Asset}
    → IsProper p
    → a.asset_id ≡ p.base.asset_id
    → a.amount < 2 ^ 63
    → times a p ≡ ok r
    → times r (invert p) ≡ ok a'
    → (a'.asset_id ≡ a.asset_id) × (a'.amount ≤ a.amount)
unfolding times
times-times-invert a p {r = r} {a' = a'} h i f e e' =
    let (j, below, above, fits) = times_rounding a p {r = r} h i f e in
    let (x, y, z, w) =
      convert_lem r.amount p.quote p.base {r = a'} (omega arith) h.base_fits (ground arith) in
    (x ∙ sym i, rw z (div-le_of_le-mul p.quote.amount (omega arith)))

-- An amount of the quote that is at most what an amount of the base is worth is, converted, at most
-- that amount of the base.
pub times_back :
    (a c : Asset) (p : Price) {r d : Asset}
    → IsProper p
    → p.base.asset_id ≢ p.quote.asset_id
    → a.asset_id ≡ p.base.asset_id
    → c.asset_id ≡ p.quote.asset_id
    → a.amount < 2 ^ 63
    → c.amount < 2 ^ 63
    → times a p ≡ ok r
    → c.amount ≤ r.amount
    → times c p ≡ ok d
    → (d.asset_id ≡ p.base.asset_id) × (d.amount ≤ a.amount)
unfolding times
times_back a c p {r = r} {d = d} h ne i j f g e le e' =
    let (k, below, above, fits) = times_rounding a p {r = r} h i f e in
    let (x, y, z, w) = convert_lem c.amount p.quote p.base {r = d} g h.base_fits (ground arith) in
    let m = mul-le-mul_right p.base.amount le in
    (x, rw z (div-le_of_le-mul p.quote.amount (omega arith)))
