-- ===== src/Market/Applied.antt =====
-- A new order that is applied meets the orders of the book that fit its price.
use karma_core.Base.{ℕ, ◌≡◌, ◌≢◌, true, false, List, none, some, Bool}
use karma_core.Base.Dict.{Dict, lookup}
use karma_core.Market.Types.{LimitOrder, Market}
use karma_core.Market.Book.{ids_of}
use karma_core.Market.Booked.{Conserved, Booked, Swept}
use karma_core.Market.Finished.{Finished}

-- A new order was applied, and meets `fits`: these are taken in their order, the other orders stay, and
-- the result tells whether the new order is gone.
pub record Applied (hs : List ℕ) (new_id : ℕ) (fits : Dict LimitOrder) (s : Market)
    (r : Bool × Market) : Type 0 where
  pub conserved : Conserved hs s (r.1)
  pub swept : Swept new_id s (r.1) (ids_of fits)
  pub leaves :
      (j : ℕ) → j ≢ new_id → lookup j fits ≡ none → lookup j (r.1).orders ≡ lookup j s.orders
  pub gone : r.0 ≡ true → lookup new_id (r.1).orders ≡ none
  pub stays : r.0 ≡ false → (o : LimitOrder) × (lookup new_id (r.1).orders ≡ some o)
