-- ===== src/Permit/Claim.antt =====
-- A claim moves its amount, and no more than what is available.
use karma_core.Base.{
  ℕ, zero, suc, ◌+◌, ◌-◌, ◌^◌, ◌≤◌, ◌<◌, ◌≡◌, ◌≢◌, refl, ◌&&◌, some, ◌==◌, if◌then◌else◌, ok, arith,
  Option-cases, inl, inr,
}
use karma_core.Base.Int.{pos}
use karma_core.Permit.Types.{Permit, Chain, available_this_period}
use karma_core.Permit.Balances.{Rows, get_balance, set_row, adjust_balance, debit}
use karma_core.Permit.Evaluators.{ClaimOperation, claim_evaluate, claim_apply, advance, set_permit}
use karma_core.Permit.Periods.{available_this_period-advance}

-- The rows after one balance is set.
abbrev pub Becomes : ℕ → ℕ → ℕ → Rows → Rows → Type 0
Becomes a i amount rows rows' =
    (b j : ℕ)
    → get_balance b j rows' ≡ (if (b == a) && (j == i) then amount else get_balance b j rows)

pub debit_lem :
    (a i amount : ℕ) (rows : Rows)
    → amount ≤ get_balance a i rows
    → (rows' : Rows) × (adjust_balance a i (debit amount) rows ≡ ok rows')
      × Becomes a i (get_balance a i rows - amount) rows rows'
unfolding adjust_balance get_balance
debit_lem a i zero rows h = (rows, refl, λ b j. ground arith)
debit_lem a i (suc n) rows h = elim (Option-cases (rows a i)) [
  | inl e ↦ absurd (ground arith)
  | inr (m, e) ↦ (set_row a i (m - suc n) rows, ground arith, λ b j. ground arith)
]

pub credit_lem :
    (a i amount : ℕ) (rows : Rows)
    → (rows' : Rows) × (adjust_balance a i (pos amount) rows ≡ ok rows')
      × Becomes a i (get_balance a i rows + amount) rows rows'
unfolding adjust_balance get_balance
credit_lem a i zero rows = (rows, refl, λ b j. ground arith)
credit_lem a i (suc n) rows = elim (Option-cases (rows a i)) [
  | inl e ↦ (set_row a i (suc n) rows, ground arith, λ b j. ground arith)
  | inr (m, e) ↦ (set_row a i (m + suc n) rows, ground arith, λ b j. ground arith)
]

accepted :
    (op : ClaimOperation) (d : Chain) (p : Permit)
    → d.permits op.withdraw_permission ≡ some p
    → claim_evaluate op d ≡ ok tt
    → (op.amount ≤ available_this_period p d.head_block_time)
      × (op.amount ≤ get_balance op.withdraw_from_account op.asset_id d.balances)
unfolding claim_evaluate
accepted op d p e ev = (ground arith, ground arith)

-- A claim that `claim_evaluate` accepts is applied, from an account to another, for a permit whose
-- period is positive and has started, and ends within 32 bits: the one balance loses the amount, the
-- other gains it, and what is available at that time shrinks by it.
pub claim_apply-claim_evaluate :
    (op : ClaimOperation) (d : Chain) (p : Permit)
    → d.permits op.withdraw_permission ≡ some p
    → 0 < p.withdrawal_period_sec
    → p.period_start_time ≤ d.head_block_time
    → d.head_block_time + p.withdrawal_period_sec < 2 ^ 32
    → op.withdraw_from_account ≢ op.withdraw_to_account
    → claim_evaluate op d ≡ ok tt
    → (d' : Chain) × (claim_apply op d ≡ ok d')
      × (get_balance op.withdraw_from_account op.asset_id d'.balances + op.amount
          ≡ get_balance op.withdraw_from_account op.asset_id d.balances)
      × (get_balance op.withdraw_to_account op.asset_id d'.balances
          ≡ get_balance op.withdraw_to_account op.asset_id d.balances + op.amount)
      × (d'.permits op.withdraw_permission ≡ some (advance p d.head_block_time op.amount))
      × (available_this_period (advance p d.head_block_time op.amount) d.head_block_time + op.amount
          ≡ available_this_period p d.head_block_time)
unfolding claim_apply
claim_apply-claim_evaluate op d p e s l w ne ev =
    let (a, b) = accepted op d p e ev in
    let (r1, e1, f1) = debit_lem op.withdraw_from_account op.asset_id op.amount d.balances b in
    let (r2, e2, f2) = credit_lem op.withdraw_to_account op.asset_id op.amount r1 in
    let x = f2 op.withdraw_from_account op.asset_id in
    let y = f2 op.withdraw_to_account op.asset_id in
    let z = f1 op.withdraw_from_account op.asset_id in
    let t = f1 op.withdraw_to_account op.asset_id in
    let v = available_this_period-advance p d.head_block_time op.amount s l w a in
    (
      record (set_permit op.withdraw_permission (some (advance p d.head_block_time op.amount)) d) {
        balances = r2;
      },
      ground arith,
      ground arith,
      ground arith,
      ground arith,
      omega arith,
    )
