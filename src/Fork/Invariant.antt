-- ===== src/Fork/Invariant.antt =====
-- Membership in the containers, and the shape of the tree of blocks.
use karma_core.Base.{
  ℕ, ◌+◌, ◌≤◌, ◌<◌, ◌≡◌, refl, ap, ◌⊎◌, inl, inr, Option, none, some, List, [], ◌∷◌, ◌++◌, ltb,
  ◌==◌, is_some, arith, Bool-cases, subst, sym, Option-cases,
}
use karma_core.Fork.Items.{
  Item, ForkDb, find_id, find_ptr, insert_ordered, insert_unique, erase_below, erase_num, head_list,
  live, lock, In,
}

pub In-append_left : (x : Item) (xs ys : List Item) → In x xs → In x (xs ++ ys)
In-append_left x [] ys h = absurd h
In-append_left x (z ∷ xs) ys (inl e) = inl e
In-append_left x (z ∷ xs) ys (inr h) = inr (In-append_left x xs ys h)

pub In-append_right : (x : Item) (xs ys : List Item) → In x ys → In x (xs ++ ys)
In-append_right x [] ys h = h
In-append_right x (z ∷ xs) ys h = inr (In-append_right x xs ys h)

pub In-append-cases : (x : Item) (xs ys : List Item) → In x (xs ++ ys) → In x xs ⊎ In x ys
In-append-cases x [] ys h = inr h
In-append-cases x (z ∷ xs) ys (inl e) = inl (inl e)
In-append-cases x (z ∷ xs) ys (inr h) = elim (In-append-cases x xs ys h) [
  | inl p ↦ inl (inr p)
  | inr p ↦ inr p
]

-- The three places that keep an object alive.
pub live-cases :
    (y : Item) (db : ForkDb)
    → In y (live db)
    → In y db.index ⊎ In y db.unlinked_index ⊎ (db.head ≡ some y)
live-cases y db h = elim (In-append-cases y db.index _ h) [
  | inl p ↦ inl p
  | inr p ↦ elim (In-append-cases y db.unlinked_index _ p) [
    | inl q ↦ inr (inl q)
    | inr q ↦ elim (Option-cases db.head) [
      | inl e ↦ absurd (subst (λ o. In y (head_list o)) e q)
      | inr (z, e) ↦
          elim (subst (λ o. In y (head_list o)) e q)
            as (λ _. In y db.index ⊎ In y db.unlinked_index ⊎ (db.head ≡ some y)) [
              | inl r ↦ inr (inr (rw r e))
              | inr r ↦ absurd r
            ]
    ]
  ]
]

pub live-index : (y : Item) (db : ForkDb) → In y db.index → In y (live db)
live-index y db h = In-append_left y db.index _ h

pub live-unlinked : (y : Item) (db : ForkDb) → In y db.unlinked_index → In y (live db)
live-unlinked y db h = In-append_right y db.index _ (In-append_left y db.unlinked_index _ h)

pub live-head : (y : Item) (db : ForkDb) → db.head ≡ some y → In y (live db)
live-head y db e =
    In-append_right y db.index _ (In-append_right y db.unlinked_index _ (rw e (inl refl)))

pub find_ptr-In :
    (p : ℕ) (xs : List Item) {y : Item} → find_ptr p xs ≡ some y → In y xs × (y.ptr ≡ p)
unfolding find_ptr
find_ptr-In p [] e = absurd (ground arith)
find_ptr-In p (x ∷ xs) {y = y} e = elim (Bool-cases (x.ptr == p)) [
  | inl h ↦ (inl (ground arith), ground arith)
  | inr h ↦ let r = find_ptr-In p xs {y = y} (ground arith) in (inr r.0, r.1)
]

pub find_id-In :
    (id : ℕ) (xs : List Item) {y : Item} → find_id id xs ≡ some y → In y xs × (y.id ≡ id)
unfolding find_id
find_id-In id [] e = absurd (ground arith)
find_id-In id (x ∷ xs) {y = y} e = elim (Bool-cases (x.id == id)) [
  | inl h ↦ (inl (ground arith), ground arith)
  | inr h ↦ let r = find_id-In id xs {y = y} (ground arith) in (inr r.0, r.1)
]

pub lock-In :
    (p : Option ℕ) (db : ForkDb) {y : Item} → lock p db ≡ some y → In y (live db) × (p ≡ some y.ptr)
unfolding lock
lock-In none db e = absurd (ground arith)
lock-In (some p) db {y = y} e =
    let r = find_ptr-In p (live db) {y = y} e in (r.0, ap some (sym r.1))

pub In-insert_ordered :
    (x : Item) (y : Item) (xs : List Item) → In x (insert_ordered y xs) → (x ≡ y) ⊎ In x xs
unfolding insert_ordered
In-insert_ordered x y [] h = h
In-insert_ordered x y (z ∷ xs) h = elim (Bool-cases (ltb y.num z.num)) [
  | inl e ↦ (rw e at h)
  | inr e ↦
      let h' : (x ≡ z) ⊎ In x (insert_ordered y xs) = rw e at h in
      elim h' [
        | inl q ↦ inr (inl q)
        | inr q ↦ elim (In-insert_ordered x y xs q) [ inl a ↦ inl a | inr a ↦ inr (inr a) ]
      ]
]

pub In-insert_unique :
    (x : Item) (y : Item) (xs : List Item) → In x (insert_unique y xs) → (x ≡ y) ⊎ In x xs
unfolding insert_unique
In-insert_unique x y xs h = elim (Bool-cases (is_some (find_id y.id xs))) [
  | inl e ↦ inr (rw e at h)
  | inr e ↦ In-insert_ordered x y xs (rw e at h)
]

pub In-erase_below : (x : Item) (m : ℕ) (xs : List Item) → In x (erase_below m xs) → In x xs
unfolding erase_below
In-erase_below x m [] h = h
In-erase_below x m (y ∷ xs) h = elim (Bool-cases (ltb y.num m)) [
  | inl e ↦ inr (In-erase_below x m xs (rw e at h))
  | inr e ↦ rw e at h
]

pub In-erase_num : (x : Item) (m : ℕ) (xs : List Item) → In x (erase_num m xs) → In x xs
unfolding erase_num
In-erase_num x m [] h = h
In-erase_num x m (y ∷ xs) h = elim (Bool-cases (y.num == m)) [
  | inl e ↦ inr (In-erase_num x m xs (rw e at h))
  | inr e ↦
      let h' : (x ≡ y) ⊎ In x (erase_num m xs) = rw e at h in
      elim h' [ inl q ↦ inl q | inr q ↦ inr (In-erase_num x m xs q) ]
]

module _ (num_from_id : ℕ → ℕ) where
  -- Objects are told apart by `ptr`; a parent pointer leads to the block that the header names, one
  -- number below; an id holds its block's number.
  pub record IsTree (db : ForkDb) : Type 0 where
    pub unique : (x y : Item) → In x (live db) → In y (live db) → x.ptr ≡ y.ptr → x ≡ y
    pub below : (x : Item) → In x (live db) → x.ptr < db.next_ptr
    pub prev_below : (x : Item) (p : ℕ) → In x (live db) → x.prev ≡ some p → p < db.next_ptr
    pub linked :
        (x y : Item)
        → In x (live db)
        → In y (live db)
        → x.prev ≡ some y.ptr
        → (y.id ≡ x.previous) × (y.num + 1 ≡ x.num)
    pub numbered : (x : Item) → In x (live db) → num_from_id x.id ≡ x.num

  -- The parent that `lock` finds.
  pub lock-parent :
      {db : ForkDb} (t : IsTree db) (x : Item) {y : Item}
      → In x (live db)
      → lock x.prev db ≡ some y
      → In y (live db) × (y.id ≡ x.previous) × (y.num + 1 ≡ x.num)
  lock-parent {db} t x {y = y} h e =
      let r = lock-In x.prev db {y = y} e in let l = t.linked x y h r.0 r.1 in (r.0, l.0, l.1)

  -- A database whose live objects are among those of another, under a `next_ptr` no smaller.
  pub IsTree-sub :
      (db db' : ForkDb)
      → ((x : Item) → In x (live db') → In x (live db))
      → db.next_ptr ≤ db'.next_ptr
      → IsTree db
      → IsTree db'
  IsTree-sub db db' s n t = record {
    unique = λ x y hx hy. t.unique x y (s x hx) (s y hy);
    below = λ x h. omega (arith, t.below x (s x h));
    prev_below = λ x p h e. omega (arith, t.prev_below x p (s x h) e);
    linked = λ x y hx hy. t.linked x y (s x hx) (s y hy);
    numbered = λ x h. t.numbered x (s x h);
  }
