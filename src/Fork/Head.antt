-- ===== src/Fork/Head.antt =====
-- What a successful `push_block` leaves: a tree, a head on the longest fork, and the window of
-- recent blocks.
use karma_core.Base.{
  ℕ, ◌+◌, ◌-◌, ◌%◌, ◌^◌, ◌≤◌, ◌<◌, ◌≡◌, ◌⊎◌, inl, inr, true, none, some, min, [], ltb, ◌==◌, ok,
  All, Bool-cases, Option-cases, arith, sym, ap, ◌∙◌, >>=-eq-ok, ok-injective,
}
use karma_core.Fork.Items.{
  Block, Item, ForkDb, block_num, find_id, insert_unique, erase_below, erase_num, live, In, Sorted,
}
use karma_core.Fork.Database.{make_item, allocated, is_recent, link, adopt, push_item, push_block}
use karma_core.Fork.Invariant.{
  IsTree, find_id-In, live-cases, live-index, live-unlinked, live-head, In-insert_unique,
  In-erase_below, In-erase_num,
}
use karma_core.Fork.Push.{
  All-map, HasParent, IsTree-add, insert_unique-Sorted, insert_unique-All, erase_below-Sorted,
  erase_below-le,
}

pub link-cases :
    (item : Item) (db : ForkDb) {x : Item}
    → link item db ≡ ok x
    → (x ≡ item)
      ⊎ ((h p : Item) × (db.head ≡ some h)
          × (find_id item.previous db.index ≡ some p)
          × (x ≡ record item { prev = some p.ptr }))
link-cases item db e = elim (Option-cases (db.head)) [
  | inl q ↦ inl (ground arith)
  | inr (h, q) ↦ elim (Option-cases (find_id item.previous db.index)) [
    | inl l ↦ inl (ground arith)
    | inr (p, l) ↦ elim (Bool-cases (item.previous == 0)) [
      | inl z ↦ inl (ground arith)
      | inr z ↦ inr (h, p, q, l, ground arith)
    ]
  ]
]

-- The parts of a successful `_push_block`.
pub push_item-eq-ok :
    (item : Item) (db : ForkDb) {db' : ForkDb}
    → push_item item db ≡ ok db'
    → (x : Item) × (is_recent item db ≡ true)
      × (link item db ≡ ok x)
      × (db' ≡ adopt x (record db { index = insert_unique x db.index }))
unfolding push_item
push_item-eq-ok item db {db' = db'} e = elim (Bool-cases (is_recent item db)) [
  | inr q ↦ absurd (ground arith)
  | inl q ↦
      let (x, l, r) =
        >>=-eq-ok (link item db)
          (λ linked. ok (adopt linked (record db { index = insert_unique linked db.index })))
          {value = db'} (rw q at e) in
      (x, q, l, sym (ok-injective r))
]

module _ (x : Item) (db : ForkDb) where
  abbrev pub longer : ForkDb
  longer = record db {
    head = some x;
    index = erase_below (x.num - min db.max_size x.num) db.index;
    unlinked_index = erase_num ((x.num + 2 ^ 32 - db.max_size) % 2 ^ 32) db.unlinked_index;
  }

  -- The three endings of `_push_block`.
  pub adopt-cases :
      ((db.head ≡ none) × (adopt x db ≡ record db { head = some x }))
      ⊎ ((h : Item) × (db.head ≡ some h) × (h.num < x.num) × (adopt x db ≡ longer))
      ⊎ ((h : Item) × (db.head ≡ some h) × (x.num ≤ h.num) × (adopt x db ≡ db))
  unfolding adopt
  adopt-cases = elim (Option-cases db.head) [
    | inl e ↦ inl (e, ground arith)
    | inr (h, e) ↦ elim (Bool-cases (ltb h.num x.num)) [
      | inl l ↦ inr (inl (h, e, ground arith, ground arith))
      | inr l ↦ inr (inr (h, e, ground arith, ground arith))
    ]
  ]

  adopt-In : (y : Item) → In y (live (adopt x db)) → (y ≡ x) ⊎ In y (live db)
  adopt-In y l = elim adopt-cases [
    | inl (e, a) ↦ elim (live-cases y (record db { head = some x }) (rw a at l)) [
      | inl p ↦ inr (live-index y db p)
      | inr (inl p) ↦ inr (live-unlinked y db p)
      | inr (inr p) ↦ inl (ground arith)
    ]
    | inr (inl (h, e, lt, a)) ↦ elim (live-cases y longer (rw a at l)) [
      | inl p ↦ inr (live-index y db (In-erase_below y _ db.index p))
      | inr (inl p) ↦ inr (live-unlinked y db (In-erase_num y _ db.unlinked_index p))
      | inr (inr p) ↦ inl (ground arith)
    ]
    | inr (inr (h, e, le, a)) ↦ inr (rw a at l)
  ]

pushed-In :
    (x y : Item) (db : ForkDb)
    → In y (live (adopt x (record db { index = insert_unique x db.index })))
    → (y ≡ x) ⊎ In y (live db)
pushed-In x y db l =
    let d : ForkDb = record db { index = insert_unique x db.index } in
    elim (adopt-In x d y l) [
      | inl e ↦ inl e
      | inr p ↦ elim (live-cases y d p) [
        | inl q ↦ elim (In-insert_unique y x db.index q) [
          | inl e ↦ inl e
          | inr r ↦ inr (live-index y db r)
        ]
        | inr (inl q) ↦ inr (live-unlinked y db q)
        | inr (inr q) ↦ inr (live-head y db q)
      ]
    ]

adopt-next_ptr : (x : Item) (db : ForkDb) → (adopt x db).next_ptr ≡ db.next_ptr
unfolding adopt
adopt-next_ptr x db = ground arith

-- `num_from_id` reads a 32-bit word, and `signed_block_header::id` stores the block's number there.
module _ (num_from_id : ℕ → ℕ) (word : (id : ℕ) → num_from_id id < 2 ^ 32) (b : Block) (db : ForkDb)
    (stored : num_from_id b.id ≡ block_num num_from_id b) (t : IsTree num_from_id db) where
  abbrev pub new_item : Item
  new_item = make_item num_from_id b db

  -- The block that is linked, and its parent.
  pub linked-HasParent :
      (x : Item)
      → is_recent new_item (allocated db) ≡ true
      → link new_item (allocated db) ≡ ok x
      → (x.ptr ≡ db.next_ptr) × (x.num ≡ block_num num_from_id b) × (x.id ≡ b.id) × HasParent x db
  linked-HasParent x r l = elim (link-cases new_item (allocated db) {x = x} l) [
    | inl e ↦ (ground arith, ground arith, ground arith, inl (ground arith))
    | inr (h, p, e, f, q) ↦
        let (hp, ip) = find_id-In b.previous db.index {y = p} f in
        let n = t.numbered p (live-index p db hp) in
        (
          ground arith,
          ground arith,
          ground arith,
          inr (
            p,
            live-index p db hp,
            ground arith,
            ground arith,
            ground (arith, ap num_from_id ip, word p.id),
          ),
        )
  ]

  -- A block that is pushed onto a tree of blocks leaves a tree of blocks, whatever fork it extends
  -- and whatever falls out of the window: objects stay distinct, and every parent pointer that is
  -- alive leads to the block that the header names as its predecessor, one number below. (The
  -- blocks' ids hold their numbers, which are 32-bit words.)
  pub push_block-IsTree :
      {db' : ForkDb} → push_block num_from_id b db ≡ ok db' → IsTree num_from_id db'
  unfolding push_block
  push_block-IsTree {db' = db'} e =
      let (x, r, l, q) = push_item-eq-ok new_item (allocated db) {db' = db'} e in
      let (ptr, num, id, parent) = linked-HasParent x r l in
      rw q (
        IsTree-add num_from_id x db _ (λ y h. pushed-In x y (allocated db) h)
          (adopt-next_ptr x (record (allocated db) { index = insert_unique x db.index })) ptr
          (ap num_from_id id ∙ stored ∙ sym num) parent t)

-- The blocks of `index` are in order, and none is further than `max_size` below the head.
pub record InWindow (db : ForkDb) : Type 0 where
  pub sorted : Sorted db.index
  pub recent :
      (h : Item) → db.head ≡ some h → All (λ (y : Item). h.num - db.max_size ≤ y.num) db.index
  pub head_first : db.head ≡ none → db.index ≡ []

module _ (num_from_id : ℕ → ℕ) (b : Block) (db : ForkDb) (w : InWindow db) where
  pub push-InWindow :
      (x : Item)
      → x.num ≡ block_num num_from_id b
      → is_recent (make_item num_from_id b db) db ≡ true
      → InWindow (adopt x (record db { index = insert_unique x db.index }))
  push-InWindow x num r =
      let d : ForkDb = record db { index = insert_unique x db.index } in
      elim (adopt-cases x d) [
        | inl (e, a) ↦ rw a (record {
          sorted = insert_unique-Sorted x db.index w.sorted;
          recent = λ h q.
              insert_unique-All (λ y. h.num - db.max_size ≤ y.num) x db.index (ground arith)
                (rw (w.head_first e) tt);
          head_first = λ q. absurd (ground arith);
        })
        | inr (inl (h, e, lt, a)) ↦ rw a (record {
          sorted = erase_below-Sorted _ _ (insert_unique-Sorted x db.index w.sorted);
          recent = λ k q.
              All-map (λ y. x.num - min db.max_size x.num ≤ y.num)
                (λ y. k.num - db.max_size ≤ y.num) _ (λ y le. ground arith)
                (erase_below-le _ _ (insert_unique-Sorted x db.index w.sorted));
          head_first = λ q. absurd (ground arith);
        })
        | inr (inr (h, e, le, a)) ↦ rw a (record {
          sorted = insert_unique-Sorted x db.index w.sorted;
          recent = λ k q.
              insert_unique-All (λ y. k.num - db.max_size ≤ y.num) x db.index (ground arith)
                (w.recent k q);
          head_first = λ q. absurd (ground arith);
        })
      ]
