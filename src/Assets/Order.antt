-- ===== src/Assets/Order.antt =====
-- Prices of one market are ordered as the fractions that they stand for.
use karma_core.Base.{
  ok, leb, ℕ, ◌*◌, ◌^◌, ◌≤◌, ◌<◌, ◌≡◌, ◌⊎◌, inl, inr, refl, Bool, true, false, ◌&&◌, ltb, ◌==◌,
  if◌then◌else◌, arith, Bool-cases, ◌∙◌,
}
use native.Mathlib.Nat.{mul-lt-mul_of_pos_left, mul-le-mul_left, lt_of_mul-lt-mul_left, mul-le-mul}
use karma_core.Assets.Types.{Asset, asset_lt, asset_le}
use karma_core.Assets.Prices.{Price, wide, same_market, price_eq, price_lt}

-- Both amounts are positive and fit `int64_t`.
pub record IsProper (p : Price) : Type 0 where
  pub base_pos : 0 < p.base.amount
  pub quote_pos : 0 < p.quote.amount
  pub base_fits : p.base.amount < 2 ^ 63
  pub quote_fits : p.quote.amount < 2 ^ 63

product_le : (a b m n : ℕ) → a ≤ m → b ≤ n → a * b ≤ m * n
product_le a b m n h k = mul-le-mul h k

pub wide_exact : (a b : ℕ) → a < 2 ^ 63 → b < 2 ^ 63 → wide a b ≡ a * b
wide_exact a b h k =
    let x = product_le a b (2 ^ 63) (2 ^ 63) (omega arith) (omega arith) in omega arith

cross_trans :
    (a1 a2 b1 b2 c1 c2 : ℕ) → 0 < c2 → b2 * a1 < a2 * b1 → c2 * b1 < b2 * c1 → c2 * a1 < a2 * c1
cross_trans a1 a2 b1 b2 c1 c2 p h k = lt_of_mul-lt-mul_left b2 (
    let x = mul-lt-mul_of_pos_left h p in
    let y = mul-le-mul_left a2 (let z : c2 * b1 ≤ b2 * c1 = omega arith in z) in omega arith)

-- Which comparison decides.
abbrev pub lt_exact : Price → Price → Bool
lt_exact a b =
    if ltb a.base.asset_id b.base.asset_id
    then true
    else if ltb b.base.asset_id a.base.asset_id
    then false
    else if ltb a.quote.asset_id b.quote.asset_id
    then true
    else if ltb b.quote.asset_id a.quote.asset_id
    then false
    else ltb (b.quote.amount * a.base.amount) (a.quote.amount * b.base.amount)

pub price_lt_exact : (a b : Price) → IsProper a → IsProper b → price_lt a b ≡ lt_exact a b
unfolding price_lt
price_lt_exact a b h k =
    rw
      (
        wide_exact b.quote.amount a.base.amount k.quote_fits h.base_fits,
        wide_exact a.quote.amount b.base.amount h.quote_fits k.base_fits,
      )
      refl

pub price_eq_exact :
    (a b : Price)
    → IsProper a
    → IsProper b
    → price_eq a b
      ≡ (same_market a b && (b.quote.amount * a.base.amount == a.quote.amount * b.base.amount))
unfolding price_eq
price_eq_exact a b h k =
    rw
      (
        wide_exact b.quote.amount a.base.amount k.quote_fits h.base_fits,
        wide_exact a.quote.amount b.base.amount h.quote_fits k.base_fits,
      )
      refl

-- Of proper prices, one below another that is below a third is below the third.
pub price_lt_trans :
    (a b c : Price)
    → IsProper a
    → IsProper b
    → IsProper c
    → price_lt a b ≡ true
    → price_lt b c ≡ true
    → price_lt a c ≡ true
price_lt_trans a b c x y z h k =
    let p = price_lt_exact a b x y in
    let q = price_lt_exact b c y z in
    let t =
      cross_trans a.base.amount a.quote.amount b.base.amount b.quote.amount c.base.amount
        c.quote.amount z.quote_pos in
    price_lt_exact a c x z ∙ ground arith

-- Exactly one of three holds of two proper prices: the first is below the second, they are equal, or
-- the second is below the first.
pub price_trichotomy :
    (a b : Price)
    → IsProper a
    → IsProper b
    → ((price_lt a b ≡ true) × (price_eq a b ≡ false) × (price_lt b a ≡ false))
      ⊎ ((price_lt a b ≡ false) × (price_eq a b ≡ true) × (price_lt b a ≡ false))
      ⊎ ((price_lt a b ≡ false) × (price_eq a b ≡ false) × (price_lt b a ≡ true))
price_trichotomy a b x y =
    let p = price_lt_exact a b x y in
    let q = price_lt_exact b a y x in
    let r = price_eq_exact a b x y in
    elim (Bool-cases (price_lt a b)) [
      | inl e ↦ inl (e, ground arith, ground arith)
      | inr e ↦ elim (Bool-cases (price_lt b a)) [
        | inl f ↦ inr (inr (e, ground arith, f))
        | inr f ↦ inr (inl (e, ground arith, f))
      ]
    ]

-- Of amounts of one asset, the comparisons are those of the numbers.
pub asset_lt_same :
    (a b : Asset) → a.asset_id ≡ b.asset_id → asset_lt a b ≡ ok (ltb a.amount b.amount)
unfolding asset_lt
asset_lt_same a b e = ground arith

pub asset_le_same :
    (a b : Asset) → a.asset_id ≡ b.asset_id → asset_le a b ≡ ok (leb a.amount b.amount)
unfolding asset_le
asset_le_same a b e = ground arith
