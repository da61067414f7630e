-- ===== src/Fork/Longest.antt =====
-- `push_block` by its outcome, and `pop_block` after it.
use karma_core.Base.{
  ℕ, ◌+◌, ◌-◌, ◌^◌, ◌≤◌, ◌<◌, ◌≡◌, ◌≢◌, refl, ◌⊎◌, inl, inr, Option, none, some, max, List, [], ◌∷◌,
  ltb, ◌==◌, is_some, ok, err, Bool-cases, Option-cases, arith, sym, subst, ap, ◌∙◌, assertion,
  unlinkable_block,
}
use karma_core.Fork.Items.{
  Block, Item, ForkDb, block_num, find_id, find_ptr, insert_ordered, insert_unique, erase_below,
  live, lock, In,
}
use karma_core.Fork.Database.{make_item, allocated, link, adopt, push_item, push_block, pop_block}
use karma_core.Fork.Invariant.{IsTree, find_id-In, find_ptr-In, live-index}
use karma_core.Fork.Head.{
  push_item-eq-ok, link-cases, adopt-cases, longer, InWindow, push-InWindow, push_block-IsTree,
}

link-num : (item : Item) (db : ForkDb) {x : Item} → link item db ≡ ok x → x.num ≡ item.num
link-num item db {x = x} e = elim (link-cases item db {x = x} e) [
  | inl q ↦ ap (λ (y : Item). y.num) q
  | inr (h, p, a, f, q) ↦ ap (λ (y : Item). y.num) q
]

-- The larger of the head's number and a block's, and the block's where there is no head.
abbrev pub taller : Option Item → ℕ → ℕ
taller none n = n
taller (some h) n = max h.num n

-- The head after `_push_block`.
adopt_head :
    (x : Item) (db : ForkDb)
    → (h' : Item) × ((adopt x db).head ≡ some h') × (h'.num ≡ taller db.head x.num)
adopt_head x db = elim (adopt-cases x db) [
  | inl (e, a) ↦ (x, rw a refl, rw e refl)
  | inr (inl (h, e, lt, a)) ↦ (x, rw a refl, rw e (omega arith))
  | inr (inr (h, e, le, a)) ↦ (h, rw a e, rw e (omega arith))
]

module _ (num_from_id : ℕ → ℕ) (b : Block) (db : ForkDb) where
  abbrev num : ℕ
  num = block_num num_from_id b

  -- A successful `push_block` keeps the blocks in order and none more than `max_size` below the
  -- head, and the head is then on a longest fork: its number is the larger of the old head's and the
  -- new block's, or the new block's where there was no head.
  pub push_block-InWindow :
      {db' : ForkDb}
      → InWindow db
      → push_block num_from_id b db ≡ ok db'
      → InWindow db' × ((h' : Item) × (db'.head ≡ some h') × (h'.num ≡ taller db.head num))
  unfolding push_block
  push_block-InWindow {db' = db'} w e =
      let item = make_item num_from_id b db in
      let (x, r, l, q) = push_item-eq-ok item (allocated db) {db' = db'} e in
      let n : x.num ≡ num = link-num item (allocated db) {x = x} l in
      let d : ForkDb = record (allocated db) { index = insert_unique x db.index } in
      let wa : InWindow (allocated db) = record {
        sorted = w.sorted;
        recent = w.recent;
        head_first = w.head_first;
      } in
      let (h', e', m) = adopt_head x d in
      (
        rw q (push-InWindow num_from_id b (allocated db) wa x n r),
        (h', ap (λ (y : ForkDb). y.head) q ∙ e', m ∙ ap (taller db.head) n),
      )

  -- `push_block` on a database with a head, of a block whose header names a predecessor, by its
  -- outcome. A block that is `max_size` or more below
  -- the head is refused by an assertion; a later one whose predecessor is not in the database is
  -- refused as unlinkable; any other is pushed.
  pub push_block_outcome :
      (h : Item)
      → db.head ≡ some h
      → b.previous ≢ 0
      → ((num ≤ h.num - db.max_size) × (push_block num_from_id b db ≡ err assertion))
        ⊎ ((h.num - db.max_size < num)
            × (find_id b.previous db.index ≡ none)
            × (push_block num_from_id b db ≡ err unlinkable_block))
        ⊎ ((h.num - db.max_size < num)
            × ((p : Item) × (find_id b.previous db.index ≡ some p)
                × ((db' : ForkDb) × (push_block num_from_id b db ≡ ok db'))))
  unfolding push_block push_item
  push_block_outcome h e nz = elim (Bool-cases (ltb (h.num - db.max_size) num)) [
    | inr old ↦ inl (ground arith, ground arith)
    | inl new ↦ elim (Option-cases (find_id b.previous db.index)) [
      | inl lost ↦ inr (inl (ground arith, lost, ground arith))
      | inr (p, found) ↦
          let x : Item = record (make_item num_from_id b db) { prev = some p.ptr } in
          inr (
            inr (
              ground arith,
              (
                p,
                found,
                (
                  adopt x (record (allocated db) { index = insert_unique x db.index }),
                  ground arith,
                ),
              ),
            ))
    ]
  ]

In-insert_ordered_old : (y x : Item) (xs : List Item) → In y xs → In y (insert_ordered x xs)
unfolding insert_ordered
In-insert_ordered_old y x [] h = absurd h
In-insert_ordered_old y x (z ∷ xs) h = elim (Bool-cases (ltb x.num z.num)) [
  | inl e ↦ rw e (inr h)
  | inr e ↦ rw e (elim h [ inl q ↦ inl q | inr q ↦ inr (In-insert_ordered_old y x xs q) ])
]

In-insert_unique_old : (y x : Item) (xs : List Item) → In y xs → In y (insert_unique x xs)
unfolding insert_unique
In-insert_unique_old y x xs h = elim (Bool-cases (is_some (find_id x.id xs))) [
  | inl e ↦ rw e h
  | inr e ↦ rw e (In-insert_ordered_old y x xs h)
]

In-erase_below_le :
    (y : Item) (m : ℕ) (xs : List Item) → m ≤ y.num → In y xs → In y (erase_below m xs)
unfolding erase_below
In-erase_below_le y m [] le h = absurd h
In-erase_below_le y m (x ∷ xs) le h = elim (Bool-cases (ltb x.num m)) [
  | inl e ↦ rw e (elim h [
    | inl q ↦ absurd (ground (arith, ap (λ (z : Item). z.num) q))
    | inr q ↦ In-erase_below_le y m xs le q
  ])
  | inr e ↦ rw e h
]

find_ptr-of-In : (y : Item) (xs : List Item) → In y xs → (z : Item) × (find_ptr y.ptr xs ≡ some z)
unfolding find_ptr
find_ptr-of-In y [] h = absurd h
find_ptr-of-In y (x ∷ xs) h = elim (Bool-cases (x.ptr == y.ptr)) [
  | inl e ↦ (x, rw e refl)
  | inr e ↦ elim h [
    | inl q ↦ absurd (ground (arith, ap (λ (z : Item). z.ptr) q))
    | inr q ↦ let (z, f) = find_ptr-of-In y xs q in (z, rw e f)
  ]
]

-- In a tree, `lock` finds the object itself while it is alive.
lock-live :
    (num_from_id : ℕ → ℕ) (db : ForkDb) (y : Item)
    → IsTree num_from_id db
    → In y (live db)
    → lock (some y.ptr) db ≡ some y
unfolding lock
lock-live num_from_id db y t h =
    let (z, f) = find_ptr-of-In y (live db) h in
    let (hz, e) = find_ptr-In y.ptr (live db) {y = z} f in f ∙ ap some (t.unique z y hz h e)

module _ (num_from_id : ℕ → ℕ) (word : (id : ℕ) → num_from_id id < 2 ^ 32) (b : Block) (db : ForkDb)
    (stored : num_from_id b.id ≡ block_num num_from_id b) (t : IsTree num_from_id db)
    (room : 1 ≤ db.max_size) (h : Item) (e : db.head ≡ some h)
    (f : find_id b.previous db.index ≡ some h) (nz : b.previous ≢ 0) where
  abbrev child : Item
  child = record (make_item num_from_id b db) { prev = some h.ptr }

  -- The head's child, pushed.
  push_child :
      {db' : ForkDb}
      → push_block num_from_id b db ≡ ok db'
      → (child.num ≡ h.num + 1)
        × (db' ≡ longer child (record (allocated db) { index = insert_unique child db.index }))
  unfolding push_block
  push_child {db' = db'} p =
      let item = make_item num_from_id b db in
      let d : ForkDb = record (allocated db) { index = insert_unique child db.index } in
      let (x, r, l, q) = push_item-eq-ok item (allocated db) {db' = db'} p in
      let xc : x ≡ child = ground arith in
      let hin = find_id-In b.previous db.index {y = h} f in
      let n : child.num ≡ h.num + 1 =
        ground (arith, t.numbered h (live-index h db hin.0), ap num_from_id hin.1, word h.id) in
      (
        n,
        (q
            ∙ ap
                (λ (y : Item). adopt y (record (allocated db) { index = insert_unique y db.index }))
                xc
            ∙ longer_child d e n),
      )
    where
      longer_child :
          (d : ForkDb) → d.head ≡ some h → child.num ≡ h.num + 1 → adopt child d ≡ longer child d
      longer_child d a n = elim (adopt-cases child d) [
        | inl (o, _) ↦ absurd (ground arith)
        | inr (inl (k, o, lt, eq)) ↦ eq
        | inr (inr (k, o, le, eq)) ↦ absurd (ground arith)
      ]

  -- `pop_block` after a successful `push_block` of a child of the head makes the old head the head
  -- again, and the block stays in the index, in a tree of blocks that keeps at least one block
  -- (`max_size`) and whose index finds the head by the header's predecessor. (The block's id holds its
  -- number, which is a 32-bit word.)
  pub pop-push :
      {db' : ForkDb}
      → push_block num_from_id b db ≡ ok db'
      → pop_block db' ≡ ok (record db' { head = some h })
  unfolding pop_block
  pop-push {db' = db'} p =
      let (n, q) = push_child {db' = db'} p in
      let d : ForkDb = record (allocated db) { index = insert_unique child db.index } in
      let tree = push_block-IsTree num_from_id word b db stored t {db' = db'} p in
      let inside : In h (longer child d).index =
        In-erase_below_le h _ d.index (omega (arith, n))
          (In-insert_unique_old h child db.index (find_id-In b.previous db.index {y = h} f).0) in
      let found : lock (some h.ptr) db' ≡ some h =
        lock-live num_from_id db' h tree
          (live-index h db' (subst (λ (y : ForkDb). In h y.index) (sym q) inside)) in
      ground (arith, found, q)
