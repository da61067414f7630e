-- ===== src/Market/Moves.antt =====
-- What each write of a fill or of a cancellation does to the sums.
use karma_core.Base.{ℕ, ◌+◌, ◌≡◌, refl, List, ok, arith, ◌==◌, if◌then◌else◌, Bool-cases, inl, inr}
use karma_core.Assets.{Asset}
use karma_core.Permit.{get_balance, Rows}
use karma_core.Permit.Claim.{credit_lem}
use karma_core.Market.Types.{LimitOrder, Market, core_asset}
use karma_core.Market.Fill.{release, credit, pay_fee, pay_deferred}
use karma_core.Base.Sums.{count, sum_over-ext, sum_over-once}
use karma_core.Market.Worth.{on, on_asset, pending, held, owed}

-- The account `a` gains `delta`, from the balances `before` on.
abbrev pub Gains : ℕ → Asset → Rows → Rows → Type 0
Gains a delta before rows =
    (b i : ℕ)
    → get_balance b i rows ≡ get_balance b i before + (if b == a then on_asset i delta else 0)

pub credit-Gains :
    (a : ℕ) (delta : Asset) (s : Market)
    → (rows : Rows) × (credit a delta s ≡ ok (record s { balances = rows }))
      × Gains a delta s.balances rows
credit-Gains a delta s =
    let (rows, e, f) = credit_lem a delta.asset_id delta.amount s.balances in
    (
      rows,
      ground arith,
      λ b i. elim (Bool-cases (b == a)) [
        | inl z ↦ (let x = f b i in let y : b ≡ a = ground arith in rw (z, y) (ground arith))
        | inr z ↦ (let x = f b i in ground arith)
      ],
    )

module _ (hs : List ℕ) where
  pub Gains-held :
      (a : ℕ) (delta : Asset) (s : Market) (rows : Rows)
      → count a hs ≡ 1
      → Gains a delta s.balances rows
      → (i : ℕ) → held hs i (record s { balances = rows }) ≡ held hs i s + on_asset i delta
  Gains-held a delta s rows c g i =
      let x =
        sum_over-once a (get_balance a i s.balances + on_asset i delta) hs
          (λ b. get_balance b i s.balances) (λ b. get_balance b i rows)
          (λ b. elim (Bool-cases (b == a)) [
            | inl z ↦ (let y = g b i in let w : b ≡ a = ground arith in rw (y, z, w) refl)
            | inr z ↦ (let y = g b i in rw (y, z) (omega arith))
          ])
          c in
      omega arith

  pub credit-held :
      (a : ℕ) (delta : Asset) (s : Market)
      → count a hs ≡ 1
      → (rows : Rows) × (credit a delta s ≡ ok (record s { balances = rows }))
        × ((i : ℕ) → held hs i (record s { balances = rows }) ≡ held hs i s + on_asset i delta)
  credit-held a delta s c =
      let (rows, e, g) = credit-Gains a delta s in (rows, e, Gains-held a delta s rows c g)

  pub release-owed :
      (a i : ℕ) (pays : Asset) (s : Market) → owed hs i (release a pays s) ≡ owed hs i s
  release-owed a i pays s =
      sum_over-ext hs (λ b. pending i (s.statistics b))
        (λ b. pending i ((release a pays s).statistics b)) (λ b. ground arith)

  pub pay_deferred-owed :
      (o : LimitOrder) (i : ℕ) (s : Market)
      → count o.seller hs ≡ 1
      → owed hs i (pay_deferred o s) ≡ owed hs i s + on i core_asset o.deferred_fee
  unfolding pay_fee
  pay_deferred-owed o i s c =
      let x =
        sum_over-once o.seller (pending i (s.statistics o.seller) + on i core_asset o.deferred_fee)
          hs (λ b. pending i (s.statistics b)) (λ b. pending i ((pay_deferred o s).statistics b))
          (λ b. ground arith) c in
      omega arith
