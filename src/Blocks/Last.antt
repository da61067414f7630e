-- ===== src/Blocks/Last.antt =====
-- The last block is the last one stored.
use karma_core.Base.{
  ℕ, zero, suc, ◌≤◌, ◌<◌, ◌≡◌, ◌⊎◌, refl, some, List, [], ◌∷◌, ◌++◌, length, get_elem?, arith,
  Option,
}
use karma_core.Blocks.Files.{
  BlockId, no_id, IndexEntry, BlockDatabase, write_entry, store, read_entry, fetch_by_number,
  last_index_entry, last, last_id,
}
use karma_core.Blocks.Bytes.{get_elem-write}
use karma_core.Blocks.Stored.{store_lem, read_entry_lem}

length-write :
    (xs : List IndexEntry) (n : ℕ) (e : IndexEntry)
    → length xs ≤ n
    → length (write_entry xs n e) ≡ suc n
unfolding write_entry
length-write [] zero e h = refl
length-write [] (suc n) e h = omega (arith, length-write [] n e (omega arith))
length-write (x ∷ xs) zero e h = absurd (omega arith)
length-write (x ∷ xs) (suc n) e h = omega (arith, length-write xs n e (omega arith))

last_lem :
    {Block : Type 0} (unpack : List ℕ → Option Block) (id_of : Block → BlockId) (b : Block)
    (e : IndexEntry) (d : BlockDatabase)
    → length d.block_num_to_pos ≡ suc e.block_id.num_from_id
    → get_elem? d.block_num_to_pos e.block_id.num_from_id ≡ some e
    → 0 < e.block_size
    → read_entry unpack id_of e d.blocks ≡ some b
    → (last unpack id_of d ≡ some b) × (last_id unpack id_of d ≡ some e.block_id)
unfolding last last_id
last_lem unpack id_of b e d l g p r =
    let t : last_index_entry unpack id_of d ≡ (some e, d) =
      rw (last_index_entry, l) (ground arith) in
    let f : fetch_by_number unpack id_of e.block_id.num_from_id d ≡ some b = ground arith in
    (ground arith, ground arith)

-- Where unpacking inverts packing, and a packed block is not empty, a block that is stored, under no
-- id or its own, at a number past the end of the index is the last block, and its id the last id.
pub last-store :
    {Block : Type 0} (pack : Block → List ℕ) (unpack : List ℕ → Option Block)
    (id_of : Block → BlockId) (b : Block) (given : BlockId) (d : BlockDatabase)
    → (given ≡ no_id) ⊎ (given ≡ id_of b)
    → 0 < length (pack b)
    → unpack (pack b) ≡ some b
    → length d.block_num_to_pos ≤ (id_of b).num_from_id
    → (last unpack id_of (store pack id_of given b d) ≡ some b)
      × (last_id unpack id_of (store pack id_of given b d) ≡ some (id_of b))
last-store pack unpack id_of b given d h p u le =
    let n = (id_of b).num_from_id in
    let new : IndexEntry = record {
      block_pos = length d.blocks;
      block_size = length (pack b);
      block_id = id_of b;
    } in
    let d' : BlockDatabase = record {
      block_num_to_pos = write_entry d.block_num_to_pos n new;
      blocks = d.blocks ++ pack b;
    } in
    let g = get_elem-write d.block_num_to_pos n new in
    let r = read_entry_lem pack unpack id_of b given d p u in
    let l = length-write d.block_num_to_pos n new le in
    rw (store_lem pack unpack id_of b given d h) (last_lem unpack id_of b new d' l g p r)
