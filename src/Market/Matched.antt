-- ===== src/Market/Matched.antt =====
-- A match of two limit orders moves assets between them, and fills one at least.
use karma_core.Base.{
  ℕ, ◌≤◌, ◌<◌, ◌≡◌, ◌≢◌, ◌⊎◌, inl, inr, refl, Bool, true, false, ◌||◌, List, none, some, leb, ok,
  err, ◌>>=◌, arith, Bool-cases, Post, Post-bind, Result-cases, sym, ◌∙◌, guard, ◌>>◌, undefined,
}
use karma_core.Base.Dict.{lookup}
use karma_core.Assets.{Asset, Price, times, asset_le, asset_eq}
use karma_core.Assets.Order.{asset_le_same}
use karma_core.Assets.Rounding.{times_rounding, times_back}
use karma_core.Market.Types.{LimitOrder, amount_for_sale, Market}
use karma_core.Market.Fill.{fill_limit_order}
use karma_core.Market.Match.{filled, report, traded, exchange, match_orders}
use karma_core.Market.Worth.{worth, IsMarket}
use karma_core.Market.Reduced.{Remains, Refused, times-Refused}
use karma_core.Market.Filled.{Filled, fill_limit_order_lem}

-- What a match of two orders keeps, and what it returns.
pub record Matched (hs : List ℕ) (usd_id core_id : ℕ) (usd : LimitOrder) (s : Market)
    (r : ℕ × Market) : Type 0 where
  pub valid : IsMarket hs (r.1)
  pub worth_kept : (i : ℕ) → worth hs i (r.1) ≡ worth hs i s
  pub supply_kept : (i : ℕ) → ((r.1).dynamic i).current_supply ≡ (s.dynamic i).current_supply
  pub others : (j : ℕ) → j ≢ usd_id → j ≢ core_id → lookup j (r.1).orders ≡ lookup j s.orders
  pub some_filled : (0 < r.0) × (r.0 ≤ 3)
  pub remains : r.0 ≡ 2 → Remains usd_id usd (r.1)
  pub usd_gone : r.0 ≢ 2 → lookup usd_id (r.1).orders ≡ none
  pub core_gone : r.0 ≡ 2 → lookup core_id (r.1).orders ≡ none

all_but_core : (a b : Bool) → 0 < filled a b → filled a b ≢ 2 → a ≡ true
all_but_core true b h ne = refl
all_but_core false true h ne = absurd (ne refl)
all_but_core false false h ne = absurd (omega arith)

module _ (hs : List ℕ) (usd_id core_id : ℕ) (usd core : LimitOrder) (s : Market) (h : IsMarket hs s)
    (e : lookup usd_id s.orders ≡ some usd) (f : lookup core_id s.orders ≡ some core)
    (ne : usd_id ≢ core_id) (same : usd.sell_price.quote.asset_id ≡ core.sell_price.base.asset_id)
    (same' : usd.sell_price.base.asset_id ≡ core.sell_price.quote.asset_id) where
  -- What the two orders exchange fits both, and is all that one of them has.
  record IsTrade (usd_receives core_receives : Asset) : Type 0 where
    usd_id_of : core_receives.asset_id ≡ usd.sell_price.base.asset_id
    core_id_of : usd_receives.asset_id ≡ core.sell_price.base.asset_id
    usd_fits : core_receives.amount ≤ usd.for_sale
    core_fits : usd_receives.amount ≤ core.for_sale
    all_of_one : (core_receives.amount ≡ usd.for_sale) ⊎ (usd_receives.amount ≡ core.for_sale)

  report-Matched :
      (x y : Asset) (a b : Bool × Market)
      → IsTrade x y
      → Filled hs usd_id usd y x s a
      → Filled hs core_id core x y (a.1) b
      → Post Refused (Matched hs usd_id core_id usd s) (report (a.0) (b.0) (b.1))
  report-Matched x y a b t m n =
      let some_filled : (0 < filled (a.0) (b.0)) × (filled (a.0) (b.0) ≤ 3) = elim t.all_of_one [
        | inl z ↦ let w = m.removed z in ground arith
        | inr z ↦ let w = n.removed z in ground arith
      ] in
      let q : report (a.0) (b.0) (b.1) ≡ ok (filled (a.0) (b.0), b.1) = ground arith in
      rw q (record {
        valid = n.valid;
        worth_kept = λ i. omega (arith, m.worth_kept i, n.worth_kept i);
        supply_kept = λ i. n.supply_kept i ∙ m.supply_kept i;
        others = λ j p q. n.others j q ∙ m.others j p;
        some_filled = some_filled;
        remains = λ z. let (o', f, g) = m.remains (ground arith) in (o', n.others usd_id ne ∙ f, g);
        usd_gone = λ z.
            let w = some_filled in n.others usd_id ne ∙ m.gone (all_but_core (a.0) (b.0) (w.0) z);
        core_gone = λ z. n.gone (ground arith);
      })

  exchange-Matched :
      (x y : Asset) (p : Price)
      → IsTrade x y
      → Post Refused (Matched hs usd_id core_id usd s) (exchange usd_id core_id x y p s)
  unfolding exchange
  exchange-Matched x y p t =
      let k = h.order usd_id usd e in
      let l = h.order core_id core f in
      Post-bind Refused (Filled hs usd_id usd y x s) (Matched hs usd_id core_id usd s)
        (fill_limit_order usd_id y x false p false s)
        (λ a. fill_limit_order core_id x y true p true (a.1) >>= λ b. report (a.0) (b.0) (b.1))
        (fill_limit_order_lem hs usd_id usd y x p false s h e false t.usd_id_of
          (λ z. k.two_assets (ground arith)) t.usd_fits)
        (λ a m.
          Post-bind Refused (Filled hs core_id core x y (a.1)) (Matched hs usd_id core_id usd s)
            (fill_limit_order core_id x y true p true (a.1)) (λ b. report (a.0) (b.0) (b.1))
            (fill_limit_order_lem hs core_id core x y p true (a.1) m.valid
              (m.others core_id (λ z. ne (sym z)) ∙ f) true t.core_id_of
              (λ z. l.two_assets (ground arith)) t.core_fits)
            (λ b n. report-Matched x y a b t m n))

  -- What the price of the second order makes of the amounts for sale is a trade of the two orders.
  traded-IsTrade :
      Post Refused
        (λ t. IsTrade (t.0) (t.1))
        (traded (amount_for_sale usd) (amount_for_sale core) core.sell_price)
  unfolding traded asset_le
  traded-IsTrade =
      let k = h.order usd_id usd e in
      let l = h.order core_id core f in
      let le = λ (w : Asset) (z : w.asset_id ≡ core.sell_price.quote.asset_id).
        asset_le_same (amount_for_sale usd) w (ground arith) in
      elim (Result-cases (times (amount_for_sale core) core.sell_price)) [
        | inr (x, g) ↦
            let q : traded (amount_for_sale usd) (amount_for_sale core) core.sell_price ≡ err x =
              ground arith in
            rw q (times-Refused (amount_for_sale core) core.sell_price g)
        | inl (w, g) ↦
            let (i, _, _, _) =
              times_rounding (amount_for_sale core) core.sell_price {r = w} l.proper refl
                l.for_sale_fits g in
            let c = le w i in
            elim (Bool-cases (leb usd.for_sale w.amount)) [
              | inr z ↦
                  let q : traded (amount_for_sale usd) (amount_for_sale core) core.sell_price
                      ≡ ok (amount_for_sale core, w) =
                    ground arith in
                  rw q (record {
                    usd_id_of = i ∙ sym same';
                    core_id_of = refl;
                    usd_fits = ground arith;
                    core_fits = omega arith;
                    all_of_one = inr refl;
                  })
              | inl z ↦ elim (Result-cases (times (amount_for_sale usd) core.sell_price)) [
                | inr (x, g') ↦
                    let q : traded (amount_for_sale usd) (amount_for_sale core) core.sell_price
                        ≡ err x =
                      ground arith in
                    rw q (times-Refused (amount_for_sale usd) core.sell_price g')
                | inl (v, g') ↦
                    let q : traded (amount_for_sale usd) (amount_for_sale core) core.sell_price
                        ≡ ok (v, amount_for_sale usd) =
                      ground arith in
                    let (j, fits) =
                      times_back (amount_for_sale core) (amount_for_sale usd) core.sell_price
                        {r = w} {d = v} l.proper l.two_assets refl same' l.for_sale_fits
                        k.for_sale_fits g (ground arith) g' in
                    rw q (record {
                      usd_id_of = refl;
                      core_id_of = j;
                      usd_fits = omega arith;
                      core_fits = fits;
                      all_of_one = inl refl;
                    })
              ]
            ]
      ]

  pub match_orders_lem :
      Post Refused (Matched hs usd_id core_id usd s) (match_orders usd_id core_id core.sell_price s)
  unfolding match_orders asset_eq
  match_orders_lem =
      let k = h.order usd_id usd e in
      let l = h.order core_id core f in
      let u = k.for_sale_pos in
      let v = l.for_sale_pos in
      let q : match_orders usd_id core_id core.sell_price s ≡ (
          traded (amount_for_sale usd) (amount_for_sale core) core.sell_price >>= λ t.
          guard (asset_eq (t.1) (amount_for_sale usd) || asset_eq (t.0) (amount_for_sale core))
            undefined
          >> exchange usd_id core_id (t.0) (t.1) core.sell_price s) =
        ground arith in
      rw q (
        Post-bind Refused (λ t. IsTrade (t.0) (t.1)) (Matched hs usd_id core_id usd s)
          (traded (amount_for_sale usd) (amount_for_sale core) core.sell_price)
          (λ t.
            guard (asset_eq (t.1) (amount_for_sale usd) || asset_eq (t.0) (amount_for_sale core))
              undefined
            >> exchange usd_id core_id (t.0) (t.1) core.sell_price s)
          traded-IsTrade
          (λ t m.
            let w : (asset_eq (t.1) (amount_for_sale usd) || asset_eq (t.0) (amount_for_sale core))
                ≡ true =
              elim m.all_of_one [
                | inl z ↦ let a = m.usd_id_of in ground arith
                | inr z ↦ let a = m.core_id_of in ground arith
              ] in
            rw w (exchange-Matched (t.0) (t.1) core.sell_price m)))
