-- ===== src/Market/Booked.antt =====
-- A new order that meets the book creates and destroys nothing.
use karma_core.Base.{
  ℕ, ◌≡◌, ◌≢◌, refl, true, false, ◌==◌, List, [], ◌∷◌, some, All, ok, ◌>>=◌, arith, Post, Post-bind,
  Post-map, Bool-cases, inl, inr, ◌∙◌, ◌⊎◌, sym, none, Option,
}
use karma_core.Base.Dict.{lookup}
use karma_core.Base.Sums.{count}
use karma_core.Market.Types.{LimitOrder, Market}
use karma_core.Market.Match.{match_orders}
use karma_core.Market.Book.{match_book}
use karma_core.Market.Worth.{worth, IsMarket}
use karma_core.Market.Reduced.{Refused}
use karma_core.Market.Matched.{Matched, match_orders_lem}

-- Nothing of any asset is created or destroyed, and the market stays well formed.
pub record Conserved (hs : List ℕ) (s t : Market) : Type 0 where
  pub valid : IsMarket hs t
  pub worth_kept : (i : ℕ) → worth hs i t ≡ worth hs i s
  pub supply_kept : (i : ℕ) → (t.dynamic i).current_supply ≡ (s.dynamic i).current_supply

-- The old orders are in the book, each once, and sell what the new one buys, for what it sells.
abbrev pub Opposite : LimitOrder → Market → ℕ → Type 0
Opposite new s id =
    (old : LimitOrder) × (lookup id s.orders ≡ some old)
    × (new.sell_price.quote.asset_id ≡ old.sell_price.base.asset_id)
    × (new.sell_price.base.asset_id ≡ old.sell_price.quote.asset_id)

abbrev pub Once : List ℕ → Type 0
Once [] = Unit
Once (id ∷ ids) = (count id ids ≡ 0) × Once ids

pub trans-Conserved :
    (hs : List ℕ) (s t u : Market) → Conserved hs s t → Conserved hs t u → Conserved hs s u
trans-Conserved hs s t u m n = record {
  valid = n.valid;
  worth_kept = λ i. n.worth_kept i ∙ m.worth_kept i;
  supply_kept = λ i. n.supply_kept i ∙ m.supply_kept i;
}

-- The orders that are still to be met stay as they are.
kept-Opposite :
    (new new' : LimitOrder) (s t : Market) (new_id old_id : ℕ) (ids : List ℕ)
    → new'.sell_price ≡ new.sell_price
    → ((j : ℕ) → j ≢ new_id → j ≢ old_id → lookup j t.orders ≡ lookup j s.orders)
    → count new_id ids ≡ 0
    → count old_id ids ≡ 0
    → All (Opposite new s) ids
    → All (Opposite new' t) ids
kept-Opposite new new' s t new_id old_id [] p f a b h = tt
kept-Opposite new new' s t new_id old_id (id ∷ ids) p f a b ((old, e, x, y), h) =
    let z = f id (ground arith) (ground arith) in
    (
      (old, z ∙ e, rw p x, rw p y),
      kept-Opposite new new' s t new_id old_id ids p f (ground arith) (ground arith) h,
    )

-- The old orders are taken in their order: the first is gone, and so on with the next, or the new order
-- is gone and those after the first are as before.
abbrev pub Swept : ℕ → Market → Market → List ℕ → Type 0
Swept new_id s t [] = Unit
Swept new_id s t (id ∷ ids) =
    ((lookup id t.orders ≡ none) × Swept new_id s t ids)
    ⊎ ((lookup new_id t.orders ≡ none) × All (λ j. lookup j t.orders ≡ lookup j s.orders) ids)

unchanged_from :
    (new_id old_id : ℕ) (s t u : Market) (ids : List ℕ)
    → ((j : ℕ) → j ≢ new_id → j ≢ old_id → lookup j t.orders ≡ lookup j s.orders)
    → count new_id ids ≡ 0
    → count old_id ids ≡ 0
    → All (λ j. lookup j u.orders ≡ lookup j t.orders) ids
    → All (λ j. lookup j u.orders ≡ lookup j s.orders) ids
unchanged_from new_id old_id s t u [] f a b h = tt
unchanged_from new_id old_id s t u (id ∷ ids) f a b (e, h) =
    let z = f id (ground arith) (ground arith) in
    (e ∙ z, unchanged_from new_id old_id s t u ids f (ground arith) (ground arith) h)

-- The same from an earlier market, whose other orders are the same.
earlier-Swept :
    (new_id old_id : ℕ) (s t u : Market) (ids : List ℕ)
    → ((j : ℕ) → j ≢ new_id → j ≢ old_id → lookup j t.orders ≡ lookup j s.orders)
    → count new_id ids ≡ 0
    → count old_id ids ≡ 0
    → Swept new_id t u ids
    → Swept new_id s u ids
earlier-Swept new_id old_id s t u [] f a b w = tt
earlier-Swept new_id old_id s t u (id ∷ ids) f a b (inl (e, w)) =
    inl (e, earlier-Swept new_id old_id s t u ids f (ground arith) (ground arith) w)
earlier-Swept new_id old_id s t u (id ∷ ids) f a b (inr (e, w)) =
    inr (e, unchanged_from new_id old_id s t u ids f (ground arith) (ground arith) w)

unchanged_here : (f : ℕ → Option LimitOrder) (ids : List ℕ) → All (λ j. f j ≡ f j) ids
unchanged_here f [] = tt
unchanged_here f (id ∷ ids) = (refl, unchanged_here f ids)

-- A loop that does not meet an order leaves it.
abbrev Leaves : ℕ → List ℕ → Market → Market → Type 0
Leaves new_id ids s t =
    (j : ℕ) → j ≢ new_id → count j ids ≡ 0 → lookup j t.orders ≡ lookup j s.orders

-- What the loop does.
pub record Booked (hs : List ℕ) (new_id : ℕ) (ids : List ℕ) (s t : Market) : Type 0 where
  pub conserved : Conserved hs s t
  pub swept : Swept new_id s t ids
  pub leaves : Leaves new_id ids s t

module _ (hs : List ℕ) (new_id : ℕ) where
  -- One match, after which the loop ends.
  ended :
      (id : ℕ) (ids : List ℕ) (new : LimitOrder) (s : Market) (r : ℕ × Market)
      → count new_id ids ≡ 0
      → count id ids ≡ 0
      → r.0 ≢ 2
      → Matched hs new_id id new s r
      → Booked hs new_id (id ∷ ids) s (r.1)
  ended id ids new s r c o z m = record {
    conserved = record { valid = m.valid; worth_kept = m.worth_kept; supply_kept = m.supply_kept };
    swept = inr (
      m.usd_gone z,
      unchanged_from new_id id s (r.1) (r.1) ids m.others c o
          (unchanged_here (λ j. lookup j (r.1).orders) ids),
    );
    leaves = λ j p q. m.others j p (ground arith);
  }

  -- One match, and the rest of the loop.
  went_on :
      (id : ℕ) (ids : List ℕ) (new : LimitOrder) (s t : Market) (r : ℕ × Market)
      → new_id ≢ id
      → count new_id ids ≡ 0
      → count id ids ≡ 0
      → r.0 ≡ 2
      → Matched hs new_id id new s r
      → Booked hs new_id ids (r.1) t
      → Booked hs new_id (id ∷ ids) s t
  went_on id ids new s t r ne c o z m n = record {
    conserved =
        trans-Conserved hs s (r.1) t
          (record { valid = m.valid; worth_kept = m.worth_kept; supply_kept = m.supply_kept })
          n.conserved;
    swept = inl (
      n.leaves id (λ e. ne (sym e)) o ∙ m.core_gone z,
      earlier-Swept new_id id s (r.1) t ids m.others c o n.swept,
    );
    leaves = λ j p q. n.leaves j p (ground arith) ∙ m.others j p (ground arith);
  }

  -- In a well-formed market, a new order that meets old ones of the other side, each in the book once,
  -- trades with them in their order until it is filled or they are, unless an assertion refuses an
  -- amount: nothing of any asset is created or destroyed, and the market stays well formed.
  pub match_book_lem :
      (ids : List ℕ) (new : LimitOrder) (s : Market)
      → IsMarket hs s
      → lookup new_id s.orders ≡ some new
      → count new_id ids ≡ 0
      → Once ids
      → All (Opposite new s) ids
      → Post Refused (Booked hs new_id ids s) (match_book new_id ids s)
  unfolding match_book
  match_book_lem [] new s h e c o a = record {
    conserved = record { valid = h; worth_kept = λ i. refl; supply_kept = λ i. refl };
    swept = tt;
    leaves = λ j p q. refl;
  }
  match_book_lem (id ∷ ids) new s h e c (o, os) ((old, f, x, y), a) =
      let ne : new_id ≢ id = ground arith in
      let c' : count new_id ids ≡ 0 = ground arith in
      let q : match_book new_id (id ∷ ids) s ≡ (
          match_orders new_id id old.sell_price s >>= λ r. elim (r.0 == 2) [
            | true ↦ match_book new_id ids (r.1)
            | false ↦ ok (r.1)
          ]) =
        rw f refl in
      rw q (
        Post-bind Refused (Matched hs new_id id new s) (Booked hs new_id (id ∷ ids) s)
          (match_orders new_id id old.sell_price s)
          (λ r. elim (r.0 == 2) [ true ↦ match_book new_id ids (r.1) | false ↦ ok (r.1) ])
          (match_orders_lem hs new_id id new old s h e f ne x y)
          (λ r m. elim (Bool-cases (r.0 == 2)) [
            | inr z ↦ rw z (ended id ids new s r c' o (ground arith) m)
            | inl z ↦
                let z' : r.0 ≡ 2 = ground arith in
                let (new', g, p) = m.remains z' in
                rw z (
                  Post-map Refused (Booked hs new_id ids (r.1)) (Booked hs new_id (id ∷ ids) s)
                    (match_book new_id ids (r.1)) (λ t n. went_on id ids new s t r ne c' o z' m n)
                    (match_book_lem ids new' (r.1) m.valid g c' os
                      (kept-Opposite new new' s (r.1) new_id id ids p m.others c' o a)))
          ]))
