-- ===== src/Fork/Database.antt =====
-- The methods of `fork_database`. A failed call throws and leaves the database as it was, but for
-- the number of the object that it allocated.
use karma_core.Base.{
  ℕ, zero, suc, ◌+◌, ◌-◌, ◌%◌, ◌^◌, min, Bool, true, false, ◌&&◌, ◌||◌, not, Option, none, some,
  List, [], ◌∷◌, ◌++◌, ltb, ◌==◌, if◌then◌else◌, is_some, Result, ok, err, assertion, out_of_fuel,
  unlinkable_block, guard, or_fail, ◌>>=◌, ◌>>◌,
}
use karma_core.Fork.Items.{
  Block, Item, ForkDb, block_num, find_id, insert_unique, erase_below, erase_num, erase_id, lock,
}

unfoldable pub reset : ForkDb → ForkDb
reset db = record db { head = none; index = [] }

unfoldable pub pop_block : ForkDb → Result ForkDb
pop_block db = do
  h ← or_fail db.head assertion
  prev ← or_fail (lock h.prev db) assertion
  ok (record db { head = some prev })

-- `std::make_shared<fork_item>( b )`
abbrev pub make_item : (ℕ → ℕ) → Block → ForkDb → Item
make_item num_from_id b db = record {
  ptr = db.next_ptr;
  prev = none;
  num = block_num num_from_id b;
  id = b.id;
  previous = b.previous;
}

abbrev pub allocated : ForkDb → ForkDb
allocated db = record db { next_ptr = db.next_ptr + 1 }

unfoldable pub start_block : (ℕ → ℕ) → Block → ForkDb → ForkDb
start_block num_from_id b db =
    let item = make_item num_from_id b db in
    record (allocated db) { index = insert_unique item db.index; head = some item }

-- The first test of `_push_block`: `int64_t(_head->num) - _max_size` is held at 0 from below.
abbrev pub is_recent : Item → ForkDb → Bool
is_recent item db = elim db.head [ none ↦ true | some h ↦ ltb (h.num - db.max_size) item.num ]

-- The second: where there is a head, the block must link to an item of the index.
abbrev pub link : Item → ForkDb → Result Item
link item db =
    if is_some db.head && not (item.previous == 0)
    then (do
      parent ← or_fail (find_id item.previous db.index) unlinkable_block
      ok (record item { prev = some parent.ptr }))
    else ok item

-- The end of `_push_block`: a longer fork gets the head, and old items are dropped.
unfoldable pub adopt : Item → ForkDb → ForkDb
adopt item db = elim db.head [
  | none ↦ record db { head = some item }
  | some h ↦
      if ltb h.num item.num
      then record db {
        head = some item;
        index = erase_below (item.num - min db.max_size item.num) db.index;
        unlinked_index = erase_num ((item.num + 2 ^ 32 - db.max_size) % 2 ^ 32) db.unlinked_index;
      }
      else db
]

unfoldable pub push_item : Item → ForkDb → Result ForkDb
push_item item db = do
  guard (is_recent item db) assertion
  linked ← link item db
  ok (adopt linked (record db { index = insert_unique linked db.index }))

-- `push_block`: what `_push_block` throws is thrown on, before the line that would have kept the item.
unfoldable pub push_block : (ℕ → ℕ) → Block → ForkDb → Result ForkDb
unfolding push_item
push_block num_from_id b db = push_item (make_item num_from_id b db) (allocated db)

unfoldable pub set_max_size : ℕ → ForkDb → ForkDb
set_max_size s db = elim db.head [
  | none ↦ record db { max_size = s }
  | some h ↦ record db {
    max_size = s;
    index = erase_below (h.num - s) db.index;
    unlinked_index = erase_below (h.num - s) db.unlinked_index;
  }
]

unfoldable pub fetch_block : ℕ → ForkDb → Option Item
fetch_block id db = elim (find_id id db.index) [
  | some x ↦ some x
  | none ↦ find_id id db.unlinked_index
]

unfoldable pub is_known_block : ℕ → ForkDb → Bool
is_known_block id db = is_some (find_id id db.index) || is_some (find_id id db.unlinked_index)

-- From the first item of the number on, while the number is the same.
unfoldable pub with_num : ℕ → List Item → List Item
with_num n [] = []
with_num n (x ∷ xs) = let rest = with_num n xs in if x.num == n then x ∷ rest else []

unfoldable pub from_num : ℕ → List Item → List Item
from_num n [] = []
from_num n (x ∷ xs) = let rest = from_num n xs in if x.num == n then x ∷ xs else rest

unfoldable pub fetch_block_by_number : ℕ → ForkDb → List Item
unfolding with_num from_num
fetch_block_by_number n db = with_num n (from_num n db.index)

unfoldable pub set_head : Option Item → ForkDb → ForkDb
set_head h db = record db { head = h }

unfoldable pub remove : ℕ → ForkDb → ForkDb
remove id db = record db { index = erase_id id db.index }

-- The first and second loop of `fetch_branch_from`: down to the number `n`.
unfoldable pub descend : ℕ → ForkDb → ℕ → Item → List Item → Result (Item × List Item)
descend zero db n x branch = err out_of_fuel
descend (suc fuel) db n x branch = elim (ltb n x.num) [
  | true ↦ or_fail (lock x.prev db) assertion >>= λ y. descend fuel db n y (branch ++ x ∷ [])
  | false ↦ ok (x, branch)
]

-- The third loop: both sides down, until they have the same previous block.
unfoldable pub descend_both :
    ℕ → ForkDb → Item → Item → List Item → List Item → Result (List Item × List Item)
descend_both zero db x y xs ys = err out_of_fuel
descend_both (suc fuel) db x y xs ys = elim (x.previous == y.previous) [
  | true ↦ ok (xs ++ x ∷ [], ys ++ y ∷ [])
  | false ↦ or_fail (lock x.prev db) assertion >>= λ x'.
      or_fail (lock y.prev db) assertion >>= λ y'.
      descend_both fuel db x' y' (xs ++ x ∷ []) (ys ++ y ∷ [])
]

unfoldable pub fetch_branch_from : ℕ → ℕ → ForkDb → Result (List Item × List Item)
fetch_branch_from first second db = do
  x0 ← or_fail (find_id first db.index) assertion
  y0 ← or_fail (find_id second db.index) assertion
  (x, xs) ← descend (x0.num + 1) db y0.num x0 []
  (y, ys) ← descend (y0.num + 1) db x.num y0 []
  descend_both (x.num + 1) db x y xs ys
