-- ===== src/Market/Finished.antt =====
-- The end of `apply_order`, after the loop over the book.
use karma_core.Base.{
  ℕ, ◌≡◌, ◌≢◌, refl, true, false, leb, List, [], ◌∷◌, none, some, All, ok, arith, Post, Post-map,
  Bool-cases, Option-cases, inl, inr, ◌∙◌, Bool,
}
use karma_core.Base.Dict.{Dict, lookup}
use karma_core.Base.Sums.{count}
use karma_core.Market.Types.{LimitOrder, Market}
use karma_core.Market.Fill.{maybe_cull_small_order, hardfork_555_time}
use karma_core.Market.Book.{ids_of, finish_order}
use karma_core.Market.Worth.{IsMarket}
use karma_core.Market.Reduced.{Refused, Culled, maybe_cull-Culled}
use karma_core.Market.Booked.{Conserved, Swept}

-- What comes after the loop, for the new order alone.
pub record Finished (hs : List ℕ) (new_id : ℕ) (s : Market) (r : Bool × Market) : Type 0 where
  pub conserved : Conserved hs s (r.1)
  pub others : (j : ℕ) → j ≢ new_id → lookup j (r.1).orders ≡ lookup j s.orders
  pub still_gone : lookup new_id s.orders ≡ none → lookup new_id (r.1).orders ≡ none
  pub gone : r.0 ≡ true → lookup new_id (r.1).orders ≡ none
  pub stays : r.0 ≡ false → (o : LimitOrder) × (lookup new_id (r.1).orders ≡ some o)

module _ (hs : List ℕ) (new_id : ℕ) (s : Market) (h : IsMarket hs s) where
  same_market : Conserved hs s s
  same_market = record { valid = h; worth_kept = λ i. refl; supply_kept = λ i. refl }

  Culled-Finished :
      (o : LimitOrder) (r : Bool × Market)
      → lookup new_id s.orders ≡ some o
      → Culled hs new_id o s r
      → Finished hs new_id s r
  Culled-Finished o r e (m, k, g) = record {
    conserved = record {
      valid = m.valid;
      worth_kept = λ i. omega (arith, m.worth_kept i);
      supply_kept = m.supply_kept;
    };
    others = m.others;
    still_gone = λ z. absurd (ground arith);
    gone = g;
    stays = λ z. rw (k z) (o, e);
  }

  left-Finished :
      (o : LimitOrder) → lookup new_id s.orders ≡ some o → Finished hs new_id s (false, s)
  left-Finished o e = record {
    conserved = same_market;
    others = λ j ne. refl;
    still_gone = λ z. z;
    gone = λ z. absurd cc;
    stays = λ z. (o, e);
  }

  gone-Finished : lookup new_id s.orders ≡ none → Finished hs new_id s (true, s)
  gone-Finished e = record {
    conserved = same_market;
    others = λ j ne. refl;
    still_gone = λ z. z;
    gone = λ z. e;
    stays = λ z. absurd cc;
  }

  pub finish_order_lem : Post Refused (Finished hs new_id s) (finish_order new_id s)
  unfolding finish_order
  finish_order_lem = elim (Option-cases (lookup new_id s.orders)) [
    | inl e ↦ let q : finish_order new_id s ≡ ok (true, s) = ground arith in rw q (gone-Finished e)
    | inr (o, e) ↦ elim (Bool-cases (leb s.head_block_time hardfork_555_time)) [
      | inl f ↦
          let q : finish_order new_id s ≡ ok (false, s) = ground arith in rw q (left-Finished o e)
      | inr f ↦
          let q : finish_order new_id s ≡ maybe_cull_small_order new_id s = ground arith in
          rw q (
            Post-map Refused (Culled hs new_id o s) (Finished hs new_id s)
              (maybe_cull_small_order new_id s) (λ r. Culled-Finished o r e)
              (maybe_cull-Culled hs new_id o s h e))
    ]
  ]

later-Same :
    (new_id : ℕ) (s t u : Market) (ids : List ℕ)
    → ((j : ℕ) → j ≢ new_id → lookup j u.orders ≡ lookup j t.orders)
    → count new_id ids ≡ 0
    → All (λ j. lookup j t.orders ≡ lookup j s.orders) ids
    → All (λ j. lookup j u.orders ≡ lookup j s.orders) ids
later-Same new_id s t u [] f a h = tt
later-Same new_id s t u (id ∷ ids) f a (e, h) =
    let z = f id (ground arith) in (z ∙ e, later-Same new_id s t u ids f (ground arith) h)

pub later-Swept :
    (new_id : ℕ) (s t u : Market) (ids : List ℕ)
    → ((j : ℕ) → j ≢ new_id → lookup j u.orders ≡ lookup j t.orders)
    → (lookup new_id t.orders ≡ none → lookup new_id u.orders ≡ none)
    → count new_id ids ≡ 0
    → Swept new_id s t ids
    → Swept new_id s u ids
later-Swept new_id s t u [] f g a w = tt
later-Swept new_id s t u (id ∷ ids) f g a (inl (e, w)) =
    let z = f id (ground arith) in inl (z ∙ e, later-Swept new_id s t u ids f g (ground arith) w)
later-Swept new_id s t u (id ∷ ids) f g a (inr (e, w)) =
    inr (g e, later-Same new_id s t u ids f (ground arith) w)

pub count-ids_of : (j : ℕ) (m : Dict LimitOrder) → lookup j m ≡ none → count j (ids_of m) ≡ 0
unfolding lookup
count-ids_of j [] h = refl
count-ids_of j ((id, o) ∷ m) h = let x = count-ids_of j m (ground arith) in ground arith
