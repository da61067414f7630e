-- ===== src/Blocks/Examples.antt =====
-- Witnesses for the files of blocks, with blocks that are numbers.
use karma_core.Base.{
  ℕ, ◌≢◌, ◌≡◌, refl, inl, inr, false, Option, none, some, List, [], ◌∷◌, ok, arith,
}
use karma_core.Blocks.{
  BlockId, no_id, BlockDatabase, store, remove, contains, fetch_optional, last, last_id, same_id,
}
use karma_core.Blocks.Bytes.{Inside}
use karma_core.Blocks.Stored.{IsStored, SameAt, store-IsStored}
use karma_core.Blocks.Kept.{store-SameAt, remove-contains}
use karma_core.Blocks.Last.{last-store}

abbrev pack : ℕ → List ℕ
pack n = n ∷ []

abbrev unpack : List ℕ → Option ℕ
unpack [] = none
unpack (n ∷ bytes) = some n

abbrev id_of : ℕ → BlockId
id_of n = record { num_from_id = n; hash = 7 }

abbrev empty_files : BlockDatabase
empty_files = record { block_num_to_pos = []; blocks = [] }

empty-Inside : Inside empty_files
empty-Inside n e h = absurd (ground arith)

-- Block 2 is stored, and leaves a gap for the blocks 0 and 1.
abbrev one_block : BlockDatabase
one_block = store pack id_of no_id 2 empty_files

store-IsStored_example : IsStored unpack id_of (id_of 2) 2 one_block
unfolding same_id
store-IsStored_example =
    store-IsStored pack unpack id_of 2 no_id empty_files (inl refl) (omega arith) refl refl

store-SameAt_example : SameAt unpack id_of (id_of 1) empty_files one_block × Inside one_block
store-SameAt_example =
    store-SameAt unpack id_of refl pack 2 no_id (id_of 1) empty_files (inl refl) empty-Inside
      (omega arith)

one-Inside : Inside one_block
one-Inside =
    (store-SameAt unpack id_of refl pack 2 no_id (id_of 1) empty_files (inl refl) empty-Inside
      (omega arith)).1

remove-contains_example :
    (d' : BlockDatabase) × (remove (id_of 2) one_block ≡ ok d')
    × (contains (id_of 2) d' ≡ false)
    × (fetch_optional unpack id_of (id_of 2) d' ≡ none)
    × ((other : BlockId) → other.num_from_id ≢ 2 → SameAt unpack id_of other one_block d')
unfolding contains store
remove-contains_example = remove-contains unpack id_of refl (id_of 2) one_block one-Inside refl

last-store_example :
    (last unpack id_of (store pack id_of (id_of 5) 5 one_block) ≡ some 5)
    × (last_id unpack id_of (store pack id_of (id_of 5) 5 one_block) ≡ some (id_of 5))
unfolding store
last-store_example =
    last-store pack unpack id_of 5 (id_of 5) one_block (inr refl) (omega arith) refl (ground arith)
