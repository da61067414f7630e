-- ===== src/Fork/Examples.antt =====
-- Tests of the fork database, and the theorems about it at a chain with a fork.
use karma_core.Base.{
  ℕ, ◌+◌, ◌*◌, ◌%◌, ◌^◌, ◌≤◌, ◌<◌, ◌≡◌, refl, ◌⊎◌, Option, none, some, List, [], ◌∷◌, map, ok, err,
  ok_or, assertion, unlinkable_block, arith, ◌-◌,
}
use karma_core.Fork.Items.{
  Block, Item, ForkDb, find_id, insert_unique, insert_ordered, erase_below, erase_num, find_ptr,
  lock,
}
use karma_core.Fork.Database.{
  push_block, push_item, adopt, pop_block, fetch_branch_from, descend, descend_both,
}
use karma_core.Fork.Invariant.{IsTree}
use karma_core.Fork.Head.{InWindow, push_block-IsTree}
use karma_core.Fork.Longest.{taller, push_block-InWindow, push_block_outcome, pop-push}

-- The number in the low word, in place of the first word of the hash.
abbrev num_from_id : ℕ → ℕ
num_from_id id = id % 2 ^ 32

abbrev hash : ℕ → ℕ → ℕ
hash n salt = salt * 2 ^ 32 + n

abbrev block : ℕ → ℕ → ℕ → Block
block n salt parent = record { id = hash n salt; previous = hash (n - 1) parent }

abbrev no_blocks : ForkDb
no_blocks = record { max_size = 1024; unlinked_index = []; index = []; head = none; next_ptr = 0 }

abbrev genesis : Block
genesis = record { id = hash 1 5; previous = 0 }

abbrev push : Block → ForkDb → ForkDb
push b db = ok_or db (push_block num_from_id b db)

abbrev db1 : ForkDb
db1 = push genesis no_blocks

abbrev db2 : ForkDb
db2 = push (block 2 6 5) db1

-- A second block 2, and a block 3 on it.
abbrev db3 : ForkDb
db3 = push (block 2 7 5) db2

abbrev db4 : ForkDb
db4 = push (block 3 8 7) db3

head_num : ForkDb → Option ℕ
head_num db = elim db.head [ none ↦ none | some h ↦ some h.num ]

longest : (head_num db2 ≡ some 2) × (head_num db4 ≡ some 3)
unfolding head_num push_block push_item adopt insert_unique insert_ordered find_id erase_below
    erase_num
longest = (refl, refl)

no_blocks-IsTree : IsTree num_from_id no_blocks
no_blocks-IsTree = record {
  unique = λ x y h. absurd h;
  below = λ x h. absurd h;
  prev_below = λ x p h. absurd h;
  linked = λ x y h. absurd h;
  numbered = λ x h. absurd h;
}

word : (id : ℕ) → num_from_id id < 2 ^ 32
word id = omega arith

db1-IsTree : IsTree num_from_id db1
unfolding push_block push_item adopt insert_unique insert_ordered find_id erase_below erase_num
db1-IsTree = push_block-IsTree num_from_id word genesis no_blocks refl no_blocks-IsTree refl

db2-IsTree : IsTree num_from_id db2
unfolding push_block push_item adopt insert_unique insert_ordered find_id erase_below erase_num
db2-IsTree = push_block-IsTree num_from_id word (block 2 6 5) db1 refl db1-IsTree refl

db3-IsTree : IsTree num_from_id db3
unfolding push_block push_item adopt insert_unique insert_ordered find_id erase_below erase_num
db3-IsTree = push_block-IsTree num_from_id word (block 2 7 5) db2 refl db2-IsTree refl

push_block-IsTree_example : IsTree num_from_id db4
unfolding push_block push_item adopt insert_unique insert_ordered find_id erase_below erase_num
push_block-IsTree_example =
    push_block-IsTree num_from_id word (block 3 8 7) db3 refl db3-IsTree {db' = db4} refl

branch_numbers : Option (List ℕ × List ℕ)
branch_numbers = elim (fetch_branch_from (hash 2 6) (hash 3 8) db4) [
  | ok (xs, ys) ↦ some (map (λ x. x.num) xs, map (λ x. x.num) ys)
  | err e ↦ none
]

branches : branch_numbers ≡ some (2 ∷ [], 3 ∷ 2 ∷ [])
unfolding branch_numbers fetch_branch_from descend descend_both lock push_block push_item adopt
    insert_unique insert_ordered find_id erase_below erase_num find_ptr
branches = refl

db1-InWindow : InWindow db1
unfolding push_block push_item adopt insert_unique insert_ordered find_id erase_below erase_num
db1-InWindow = record {
  sorted = (tt, tt);
  recent = λ h e. (ground arith, tt);
  head_first = λ e. absurd (ground arith);
}

push_block-InWindow_example :
    InWindow db2 × ((h' : Item) × (db2.head ≡ some h') × (h'.num ≡ taller db1.head 2))
unfolding push_block push_item adopt insert_unique insert_ordered find_id erase_below erase_num
push_block-InWindow_example =
    push_block-InWindow num_from_id (block 2 6 5) db1 {db' = db2} db1-InWindow refl

abbrev first_item : Item
first_item = record { ptr = 0; prev = none; num = 1; id = hash 1 5; previous = 0 }

push_block_outcome_example :
    ((2 ≤ 1 - db1.max_size) × (push_block num_from_id (block 2 6 4) db1 ≡ err assertion))
    ⊎ ((1 - db1.max_size < 2)
        × (find_id (hash 1 4) db1.index ≡ none)
        × (push_block num_from_id (block 2 6 4) db1 ≡ err unlinkable_block))
    ⊎ ((1 - db1.max_size < 2)
        × ((p : Item) × (find_id (hash 1 4) db1.index ≡ some p)
            × ((db' : ForkDb) × (push_block num_from_id (block 2 6 4) db1 ≡ ok db'))))
unfolding push_block push_item adopt insert_unique insert_ordered find_id erase_below erase_num
push_block_outcome_example =
    push_block_outcome num_from_id (block 2 6 4) db1 first_item refl (omega arith)

pop-push_example : pop_block db2 ≡ ok (record db2 { head = some first_item })
unfolding push_block push_item adopt insert_unique insert_ordered find_id erase_below erase_num
pop-push_example =
    pop-push num_from_id word (block 2 6 5) db1 refl db1-IsTree (omega arith) first_item refl refl
      (omega arith) {db' = db2} refl
