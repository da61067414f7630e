-- ===== src/Fork/Items.antt =====
-- `fork_item` and the containers of the fork database. A shared object is known by the number of
-- its allocation, `ptr`; a `weak_ptr` is such a number, and `lock` finds the object if it is alive.
use karma_core.Base.{
  ℕ, ◌+◌, ◌%◌, ◌^◌, ◌≤◌, ◌≡◌, ◌⊎◌, Option, none, some, List, [], ◌∷◌, ◌++◌, ltb, ◌==◌,
  if◌then◌else◌, is_some, All,
}

-- What the fork database reads of a `signed_block`; `id` is its hash.
pub record Block : Type 0 where
  pub id : ℕ
  pub previous : ℕ

pub record Item : Type 0 where
  pub ptr : ℕ
  pub prev : Option ℕ
  pub num : ℕ
  pub id : ℕ
  pub previous : ℕ

-- `fork_database`. `index` is in the order of its `block_num` index.
pub record ForkDb : Type 0 where
  pub max_size : ℕ
  pub unlinked_index : List Item
  pub index : List Item
  pub head : Option Item
  pub next_ptr : ℕ

-- `block_header::block_num`, a 32-bit number; `num_from_id` reads the first word of an id.
abbrev pub block_num : (ℕ → ℕ) → Block → ℕ
block_num num_from_id b = (num_from_id b.previous + 1) % 2 ^ 32

unfoldable pub find_id : ℕ → List Item → Option Item
find_id id [] = none
find_id id (x ∷ xs) = if x.id == id then some x else find_id id xs

unfoldable pub find_ptr : ℕ → List Item → Option Item
find_ptr p [] = none
find_ptr p (x ∷ xs) = if x.ptr == p then some x else find_ptr p xs

-- An ordered index puts a new item behind those with an equal key.
unfoldable pub insert_ordered : Item → List Item → List Item
insert_ordered x [] = x ∷ []
insert_ordered x (y ∷ ys) = if ltb x.num y.num then x ∷ y ∷ ys else y ∷ insert_ordered x ys

-- The `block_id` index is unique: an insertion whose id is there does nothing.
unfoldable pub insert_unique : Item → List Item → List Item
insert_unique x xs = if is_some (find_id x.id xs) then xs else insert_ordered x xs

-- `while( num_idx.size() && (*num_idx.begin())->num < min_num ) num_idx.erase( num_idx.begin() );`
unfoldable pub erase_below : ℕ → List Item → List Item
erase_below m [] = []
erase_below m (x ∷ xs) = let rest = erase_below m xs in if ltb x.num m then rest else x ∷ xs

-- `get<block_num>().erase( n )`
unfoldable pub erase_num : ℕ → List Item → List Item
erase_num n [] = []
erase_num n (x ∷ xs) = let rest = erase_num n xs in if x.num == n then rest else x ∷ rest

-- `get<block_id>().erase( id )`
unfoldable pub erase_id : ℕ → List Item → List Item
erase_id id [] = []
erase_id id (x ∷ xs) = let rest = erase_id id xs in if x.id == id then rest else x ∷ rest

abbrev pub head_list : Option Item → List Item
head_list none = []
head_list (some x) = x ∷ []

-- The objects that a `shared_ptr` of the database keeps alive.
abbrev pub live : ForkDb → List Item
live db = db.index ++ (db.unlinked_index ++ head_list db.head)

-- `weak_ptr::lock`
unfoldable pub lock : Option ℕ → ForkDb → Option Item
unfolding find_ptr
lock none db = none
lock (some p) db = find_ptr p (live db)

abbrev pub In : Item → List Item → Type 0
In x [] = ⊥
In x (y ∷ ys) = (x ≡ y) ⊎ In x ys

abbrev pub Sorted : List Item → Type 0
Sorted [] = Unit
Sorted (x ∷ xs) = All (λ (y : Item). x.num ≤ y.num) xs × Sorted xs
