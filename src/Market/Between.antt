-- ===== src/Market/Between.antt =====
-- The orders that the loop of `apply_order` walks over are of the other side, each once.
use karma_core.Base.{
  ℕ, ◌+◌, ◌≡◌, ◌≢◌, refl, ◌==◌, if◌then◌else◌, List, [], ◌∷◌, none, some, All, arith, Bool-cases,
  inl, inr, sym, ◌∙◌, ap,
}
use karma_core.Base.Dict.{Dict, lookup, Distinct}
use karma_core.Base.Sums.{count}
use karma_core.Assets.{Price}
use karma_core.Market.Types.{LimitOrder, Market}
use karma_core.Market.Book.{is_before, place, in_range, orders_between, ids_of}
use karma_core.Market.Booked.{Opposite, Once}
use karma_core.Market.Priority.{outside}

count-place :
    (j : ℕ) (x : ℕ × LimitOrder) (ys : Dict LimitOrder)
    → count j (ids_of (place x ys)) ≡ (if j == x.0 then 1 else 0) + count j (ids_of ys)
unfolding place
count-place j x [] = omega arith
count-place j x (y ∷ ys) = let h = count-place j x ys in ground arith

place-Once :
    (x : ℕ × LimitOrder) (ys : Dict LimitOrder)
    → count (x.0) (ids_of ys) ≡ 0
    → Once (ids_of ys)
    → Once (ids_of (place x ys))
unfolding place
place-Once x [] c o = (refl, tt)
place-Once x (y ∷ ys) c (p, o) = elim (Bool-cases (is_before x y)) [
  | inl e ↦ rw e (c, (p, o))
  | inr e ↦ let h = count-place (y.0) x ys in rw e (ground arith, place-Once x ys (ground arith) o)
]

place-All :
    (P : ℕ → Type 0) (x : ℕ × LimitOrder) (ys : Dict LimitOrder)
    → P (x.0)
    → All P (ids_of ys)
    → All P (ids_of (place x ys))
unfolding place
place-All P x [] h a = (h, tt)
place-All P x (y ∷ ys) h (p, a) = elim (Bool-cases (is_before x y)) [
  | inl e ↦ rw e (h, (p, a))
  | inr e ↦ rw e (p, place-All P x ys h a)
]

module _ (top max_price : Price) (same : top.base.asset_id ≡ max_price.base.asset_id)
    (same' : top.quote.asset_id ≡ max_price.quote.asset_id) where
  between-absent :
      (j : ℕ) (m : Dict LimitOrder)
      → lookup j m ≡ none
      → count j (ids_of (orders_between top max_price m)) ≡ 0
  unfolding orders_between lookup
  between-absent j [] h = refl
  between-absent j ((id, o) ∷ m) h =
      let x = between-absent j m (ground arith) in
      let y = count-place j (id, o) (orders_between top max_price m) in
      elim (Bool-cases (in_range top max_price o)) [ inl e ↦ rw e (ground arith) | inr e ↦ rw e x ]

  pub between-Once :
      (m : Dict LimitOrder) → Distinct m → Once (ids_of (orders_between top max_price m))
  unfolding orders_between
  between-Once [] d = tt
  between-Once ((id, o) ∷ m) (d, ds) = elim (Bool-cases (in_range top max_price o)) [
    | inl e ↦ rw e (
        place-Once (id, o) (orders_between top max_price m) (between-absent id m d)
          (between-Once m ds))
    | inr e ↦ rw e (between-Once m ds)
  ]

  pub between-All :
      (new : LimitOrder) (s : Market) (m : Dict LimitOrder)
      → new.sell_price.quote.asset_id ≡ max_price.base.asset_id
      → new.sell_price.base.asset_id ≡ max_price.quote.asset_id
      → Distinct m
      → ((id : ℕ) (o : LimitOrder) → lookup id m ≡ some o → lookup id s.orders ≡ some o)
      → All (Opposite new s) (ids_of (orders_between top max_price m))
  unfolding orders_between lookup
  between-All new s [] p q d f = tt
  between-All new s ((id, o) ∷ m) p q (d, ds) f =
      let rest = between-All new s m p q ds (λ j w e. elim (Bool-cases (j == id)) [
        | inl z ↦ (let y : j ≡ id = ground arith in absurd (ground arith))
        | inr z ↦ f j w (ground arith)
      ]) in
      elim (Bool-cases (in_range top max_price o)) [
        | inl e ↦
            let (a, b) = outside top max_price o same same' e in
            rw e (
              place-All (Opposite new s) (id, o) (orders_between top max_price m)
                (o, f id o (ground arith), p ∙ sym a, q ∙ sym b) rest)
        | inr e ↦ rw e rest
      ]

-- The new order is not one of the other side.
pub new-absent :
    (new : LimitOrder) (new_id : ℕ) (s : Market) (ids : List ℕ)
    → lookup new_id s.orders ≡ some new
    → new.sell_price.base.asset_id ≢ new.sell_price.quote.asset_id
    → All (Opposite new s) ids
    → count new_id ids ≡ 0
new-absent new new_id s [] e ne a = refl
new-absent new new_id s (id ∷ ids) e ne ((o, f, x, y), a) =
    let h = new-absent new new_id s ids e ne a in
    elim (Bool-cases (new_id == id)) [
      | inl z ↦
          let w : new_id ≡ id = ground arith in
          let v : new ≡ o = cc in
          absurd (ne (sym (x ∙ ap (λ o. o.sell_price.base.asset_id) (sym v))))
      | inr z ↦ ground arith
    ]
