-- ===== src/Blocks/Stored.antt =====
-- What is stored is fetched, what is removed is gone, and the other blocks stay.
use karma_core.Base.{
  ℕ, ◌<◌, ◌≡◌, ◌≢◌, ◌⊎◌, inl, inr, refl, true, false, Option, some, List, ◌++◌, length, take, ok,
  arith, length-append,
}
use karma_core.Blocks.Files.{
  BlockId, no_id, same_id, IndexEntry, BlockDatabase, write_entry, skip, read_blocks, filed_under,
  contains, fetch_block_id, store, read_entry, fetch_optional, fetch_by_number,
}
use karma_core.Blocks.Bytes.{get_elem-write, take-length, skip-append, same_id_refl}

-- The readers find the block under its id and its number.
pub record IsStored {Block : Type 0} (unpack : List ℕ → Option Block) (id_of : Block → BlockId)
    (id : BlockId) (b : Block) (d : BlockDatabase) : Type 0 where
  pub fetched : fetch_optional unpack id_of id d ≡ some b
  pub by_number : fetch_by_number unpack id_of id.num_from_id d ≡ some b
  pub contained : contains id d ≡ true
  pub id_fetched : id.num_from_id ≢ 0 → fetch_block_id id.num_from_id d ≡ ok id

-- The readers of one id find in `d'` what they find in `d`.
pub record SameAt {Block : Type 0} (unpack : List ℕ → Option Block) (id_of : Block → BlockId)
    (id : BlockId) (d d' : BlockDatabase) : Type 0 where
  pub fetched : fetch_optional unpack id_of id d' ≡ fetch_optional unpack id_of id d
  pub by_number :
      fetch_by_number unpack id_of id.num_from_id d' ≡ fetch_by_number unpack id_of id.num_from_id d
  pub contained : contains id d' ≡ contains id d

module _ {Block : Type 0} (pack : Block → List ℕ) (unpack : List ℕ → Option Block)
    (id_of : Block → BlockId) (b : Block) (given : BlockId) (d : BlockDatabase) where
  abbrev entry : IndexEntry
  entry = record { block_pos = length d.blocks; block_size = length (pack b); block_id = id_of b }

  abbrev stored : BlockDatabase
  stored = record {
    block_num_to_pos = write_entry d.block_num_to_pos (id_of b).num_from_id entry;
    blocks = d.blocks ++ pack b;
  }

  filed_lem : (given ≡ no_id) ⊎ (given ≡ id_of b) → filed_under given (id_of b) ≡ id_of b
  unfolding same_id
  filed_lem (inl e) = rw e refl
  filed_lem (inr e) = rw e (ground arith)

  pub store_lem : (given ≡ no_id) ⊎ (given ≡ id_of b) → store pack id_of given b d ≡ stored
  unfolding store
  store_lem h = rw (filed_lem h) refl

  pub read_entry_lem :
      0 < length (pack b)
      → unpack (pack b) ≡ some b
      → read_entry unpack id_of entry (d.blocks ++ pack b) ≡ some b
  unfolding read_entry read_blocks
  read_entry_lem p u =
      let l = length-append d.blocks (pack b) in
      let t : take (length (pack b)) (skip (length d.blocks) (d.blocks ++ pack b)) ≡ pack b =
        rw (skip-append d.blocks (pack b)) (take-length (pack b)) in
      let q : read_blocks (length d.blocks) (length (pack b)) (d.blocks ++ pack b) ≡ some (pack b) =
        ground arith in
      let s = same_id_refl (id_of b) in ground arith

  -- Where unpacking inverts packing, and a packed block is not empty, a block that is stored, under no
  -- id or its own, which is not the default id, is found by that id and by its number.
  pub store-IsStored :
      (given ≡ no_id) ⊎ (given ≡ id_of b)
      → 0 < length (pack b)
      → unpack (pack b) ≡ some b
      → same_id (id_of b) no_id ≡ false
      → IsStored unpack id_of (id_of b) b (store pack id_of given b d)
  unfolding fetch_optional fetch_by_number contains fetch_block_id
  store-IsStored h p u n =
      let g = get_elem-write d.block_num_to_pos (id_of b).num_from_id entry in
      let r = read_entry_lem p u in
      let s = same_id_refl (id_of b) in
      rw (store_lem h) (record {
        fetched = ground arith;
        by_number = ground arith;
        contained = ground arith;
        id_fetched = λ z. ground arith;
      })
