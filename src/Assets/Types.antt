-- ===== src/Assets/Types.antt =====
-- `asset`. An amount is a natural number: the operations that reach this code have validated that
-- theirs is not negative.
use karma_core.Base.{
  ℕ, ◌+◌, ◌-◌, Bool, true, false, ◌&&◌, ltb, ◌==◌, Result, ok, guard, assertion, ◌>>◌,
}

pub record Asset : Type 0 where
  pub amount : ℕ
  pub asset_id : ℕ

-- `asset::operator ==`, `operator <` and `operator <=`
unfoldable pub asset_eq : Asset → Asset → Bool
asset_eq a b = (a.asset_id == b.asset_id) && (a.amount == b.amount)

unfoldable pub asset_lt : Asset → Asset → Result Bool
asset_lt a b = guard (a.asset_id == b.asset_id) assertion >> ok (ltb a.amount b.amount)

unfoldable pub asset_le : Asset → Asset → Result Bool
unfolding asset_eq asset_lt
asset_le a b = elim (asset_eq a b) [ true ↦ ok true | false ↦ asset_lt a b ]

-- `asset::operator +=` and `operator -=`; every subtraction here follows a test that it fits.
unfoldable pub asset_add : Asset → Asset → Result Asset
asset_add a b =
    guard (a.asset_id == b.asset_id) assertion >> ok (record a { amount = a.amount + b.amount })

unfoldable pub asset_sub : Asset → Asset → Result Asset
asset_sub a b =
    guard (a.asset_id == b.asset_id) assertion >> ok (record a { amount = a.amount - b.amount })
