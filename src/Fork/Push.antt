-- ===== src/Fork/Push.antt =====
-- `push_block`: the tree stays one, in order and within the window, and the longest fork is the head.
use karma_core.Base.{
  ℕ, ◌+◌, ◌≤◌, ◌<◌, ◌≡◌, ◌≢◌, ◌⊎◌, inl, inr, none, some, List, [], ◌∷◌, ltb, is_some, All,
  Bool-cases, arith, sym, ap, ◌∙◌,
}
use karma_core.Fork.Items.{
  Item, ForkDb, find_id, insert_ordered, insert_unique, erase_below, live, In, Sorted,
}
use karma_core.Fork.Invariant.{IsTree}

All-insert_ordered :
    (P : Item → Type 0) (y : Item) (xs : List Item) → P y → All P xs → All P (insert_ordered y xs)
unfolding insert_ordered
All-insert_ordered P y [] p h = (p, tt)
All-insert_ordered P y (z ∷ xs) p h = elim (Bool-cases (ltb y.num z.num)) [
  | inl e ↦ rw e (p, h)
  | inr e ↦ rw e (h.0, All-insert_ordered P y xs p h.1)
]

pub All-map :
    {A : Type 0} (P Q : A → Type 0) (xs : List A) → ((x : A) → P x → Q x) → All P xs → All Q xs
All-map P Q [] f h = tt
All-map P Q (x ∷ xs) f h = (f x h.0, All-map P Q xs f h.1)

insert_ordered-Sorted : (y : Item) (xs : List Item) → Sorted xs → Sorted (insert_ordered y xs)
unfolding insert_ordered
insert_ordered-Sorted y [] s = (tt, tt)
insert_ordered-Sorted y (z ∷ xs) s = elim (Bool-cases (ltb y.num z.num)) [
  | inl e ↦ rw e (
    (ground arith, All-map (λ w. z.num ≤ w.num) (λ w. y.num ≤ w.num) xs (λ w le. ground arith) s.0),
    s,
  )
  | inr e ↦ rw e (
    All-insert_ordered (λ w. z.num ≤ w.num) y xs (ground arith) s.0,
    insert_ordered-Sorted y xs s.1,
  )
]

pub insert_unique-Sorted : (y : Item) (xs : List Item) → Sorted xs → Sorted (insert_unique y xs)
unfolding insert_unique
insert_unique-Sorted y xs s = elim (Bool-cases (is_some (find_id y.id xs))) [
  | inl e ↦ rw e s
  | inr e ↦ rw e (insert_ordered-Sorted y xs s)
]

pub insert_unique-All :
    (P : Item → Type 0) (y : Item) (xs : List Item) → P y → All P xs → All P (insert_unique y xs)
unfolding insert_unique
insert_unique-All P y xs p h = elim (Bool-cases (is_some (find_id y.id xs))) [
  | inl e ↦ rw e h
  | inr e ↦ rw e (All-insert_ordered P y xs p h)
]

pub erase_below-Sorted : (m : ℕ) (xs : List Item) → Sorted xs → Sorted (erase_below m xs)
unfolding erase_below
erase_below-Sorted m [] s = tt
erase_below-Sorted m (x ∷ xs) s = elim (Bool-cases (ltb x.num m)) [
  | inl e ↦ rw e (erase_below-Sorted m xs s.1)
  | inr e ↦ rw e s
]

-- In order, erasing from the front leaves nothing below the bound.
pub erase_below-le : (m : ℕ) (xs : List Item) → Sorted xs → All (λ x. m ≤ x.num) (erase_below m xs)
unfolding erase_below
erase_below-le m [] s = tt
erase_below-le m (x ∷ xs) s = elim (Bool-cases (ltb x.num m)) [
  | inl e ↦ rw e (erase_below-le m xs s.1)
  | inr e ↦
      rw e
        (ground arith, All-map (λ w. x.num ≤ w.num) (λ w. m ≤ w.num) xs (λ w le. ground arith) s.0)
]

-- What `_push_block` has linked: a block that stands for itself, or one with a parent in `index`.
abbrev pub HasParent : Item → ForkDb → Type 0
HasParent x db =
    (x.prev ≡ none)
    ⊎ ((p : Item) × In p (live db)
        × (x.prev ≡ some p.ptr)
        × (p.id ≡ x.previous)
        × (p.num + 1 ≡ x.num))

module _ (num_from_id : ℕ → ℕ) where
  -- A tree with one more live object, fresh and linked, is a tree.
  pub IsTree-add :
      (x : Item) (db db' : ForkDb)
      → ((y : Item) → In y (live db') → (y ≡ x) ⊎ In y (live db))
      → db'.next_ptr ≡ db.next_ptr + 1
      → x.ptr ≡ db.next_ptr
      → num_from_id x.id ≡ x.num
      → HasParent x db
      → IsTree num_from_id db
      → IsTree num_from_id db'
  IsTree-add x db db' s n fresh numbered parent t = record {
    unique = λ y z hy hz e. unique (s y hy) (s z hz) e;
    below = λ y hy. elim (s y hy) [
      | inl q ↦ omega (arith, ap (λ (w : Item). w.ptr) q)
      | inr h ↦ omega (arith, t.below y h)
    ];
    prev_below = λ y p hy e. prev_below p (s y hy) e;
    linked = λ y z hy hz e. linked (s y hy) (s z hz) e;
    numbered = λ y hy. elim (s y hy) [ inl q ↦ rw q numbered | inr h ↦ t.numbered y h ];
  }
    where
      old_ne : (y : Item) → In y (live db) → x.ptr ≢ y.ptr
      old_ne y h e = absurd (omega (arith, t.below y h))

      unique :
          {y z : Item} → (y ≡ x) ⊎ In y (live db) → (z ≡ x) ⊎ In z (live db) → y.ptr ≡ z.ptr → y ≡ z
      unique (inl p) (inl q) e = p ∙ sym q
      unique {z = z} (inl p) (inr h) e = absurd (old_ne z h (ap (λ (w : Item). w.ptr) (sym p) ∙ e))
      unique {y = y} (inr h) (inl p) e =
          absurd (old_ne y h (ap (λ (w : Item). w.ptr) (sym p) ∙ sym e))
      unique {y = y} {z = z} (inr h) (inr k) e = t.unique y z h k e

      new_parent :
          (p : ℕ)
          → x.prev ≡ some p
          → (q : Item) × In q (live db) × (q.ptr ≡ p) × (q.id ≡ x.previous) × (q.num + 1 ≡ x.num)
      new_parent p e = elim parent [
        | inl k ↦ absurd (ground arith)
        | inr (q, h, l, i, m) ↦ (q, h, ground arith, i, m)
      ]

      prev_below :
          {y : Item} (p : ℕ) → (y ≡ x) ⊎ In y (live db) → y.prev ≡ some p → p < db'.next_ptr
      prev_below {y} p (inl q) e =
          let (r, h, l, i, m) = new_parent p (ap (λ (w : Item). w.prev) (sym q) ∙ e) in
          omega (arith, t.below r h)
      prev_below {y} p (inr h) e = omega (arith, t.prev_below y p h e)

      linked :
          {y z : Item}
          → (y ≡ x) ⊎ In y (live db)
          → (z ≡ x) ⊎ In z (live db)
          → y.prev ≡ some z.ptr
          → (z.id ≡ y.previous) × (z.num + 1 ≡ y.num)
      linked {y} {z} (inl q) zk e =
          let (r, h, l, i, m) = new_parent z.ptr (ap (λ (w : Item). w.prev) (sym q) ∙ e) in
          elim zk [
            | inl k ↦ absurd (old_ne r h (ap (λ (w : Item). w.ptr) (sym k) ∙ sym l))
            | inr hz ↦
                let e' : r ≡ z = t.unique r z h hz l in (ground (arith, e'), ground (arith, e'))
          ]
      linked {y} {z} (inr h) (inl k) e =
          absurd (omega (arith, t.prev_below y z.ptr h e, ap (λ (w : Item). w.ptr) k))
      linked {y} {z} (inr h) (inr hz) e = t.linked y z h hz e
