-- ===== src/Fork/Branch.antt =====
-- `fetch_branch_from`: what the two branches are, and that its loops end.
use karma_core.Base.{ℕ, ◌≤◌, ◌≡◌, ◌≢◌, List, [], ◌∷◌, assertion, Error}
use karma_core.Fork.Items.{Item, ForkDb, live, In}
use karma_core.Fork.Invariant.{IsTree}

-- The blocks `xs`, from the one with the given id on, each the parent of the one before; `to` is
-- the id of the last one's parent.
abbrev pub Leads : ℕ → List Item → ℕ → Type 0
Leads from [] to = from ≡ to
Leads from (x ∷ xs) to = (x.id ≡ from) × Leads x.previous xs to

-- Two non-empty branches from the given blocks that come down to one and the same parent.
abbrev pub Branches : ℕ → ℕ → List Item × List Item → Type 0
Branches first second (xs, ys) =
    (common : ℕ) × Leads first xs common × Leads second ys common × (xs ≢ []) × (ys ≢ [])

-- An exception of `fetch_branch_from` says that an item is missing.
abbrev pub Missing : Error → Type 0
Missing e = e ≡ assertion

module _ (num_from_id : ℕ → ℕ) (db : ForkDb) (t : IsTree num_from_id db) where
  abbrev Descended : ℕ → ℕ → Item × List Item → Type 0
  Descended from n (y, branch) = In y (live db) × (y.num ≤ n) × Leads from branch y.id

  abbrev Named : ℕ → Item → Type 0
  Named id x = In x (live db) × (x.id ≡ id)
