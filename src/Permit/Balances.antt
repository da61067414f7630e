-- ===== src/Permit/Balances.antt =====
-- `get_balance` and `adjust_balance`. An account without a row for an asset has none of it.
use karma_core.Base.{
  ℕ, zero, suc, ◌+◌, ◌-◌, ◌&&◌, Option, none, some, leb, ◌==◌, if◌then◌else◌, Result, ok, err,
  guard, assertion, ◌>>◌, ◌>>=◌, or_else,
}
use karma_core.Base.Int.{ℤ, pos, negsuc}

abbrev pub Rows : Type 0
Rows = ℕ → ℕ → Option ℕ

unfoldable pub get_balance : ℕ → ℕ → Rows → ℕ
get_balance owner asset_id rows = or_else (rows owner asset_id) 0

abbrev pub set_row : ℕ → ℕ → ℕ → Rows → Rows
set_row account asset_id amount rows a i =
    if (a == account) && (i == asset_id) then some amount else rows a i

-- A row is made by the first credit; a debit must fit.
unfoldable pub adjust_row : Option ℕ → ℤ → Result ℕ
adjust_row none (pos d) = ok d
adjust_row none (negsuc d) = err assertion
adjust_row (some b) (pos d) = ok (b + d)
adjust_row (some b) (negsuc d) = guard (leb (suc d) b) assertion >> ok (b - suc d)

unfoldable pub adjust_balance : ℕ → ℕ → ℤ → Rows → Result Rows
unfolding adjust_row
adjust_balance account asset_id (pos zero) rows = ok rows
adjust_balance account asset_id (pos (suc d)) rows =
    adjust_row (rows account asset_id) (pos (suc d)) >>= λ amount.
    ok (set_row account asset_id amount rows)
adjust_balance account asset_id (negsuc d) rows =
    adjust_row (rows account asset_id) (negsuc d) >>= λ amount.
    ok (set_row account asset_id amount rows)

-- `-delta` of an amount.
abbrev pub debit : ℕ → ℤ
debit zero = pos zero
debit (suc n) = negsuc n
