-- ===== src/Blocks/Files.antt =====
-- The two files and the calls that read and write them. The index is a file of whole entries, each
-- at its block number; reading past the end of a file throws, and the readers that catch return none.
-- Packing, unpacking and the id of a block are parameters.
use karma_core.Base.{
  ℕ, zero, suc, ◌+◌, Bool, false, ◌&&◌, not, ltb, leb, ◌==◌, if◌then◌else◌, Option, none, some,
  List, [], ◌∷◌, ◌++◌, length, get_elem?, take, is_some, Result, ok, guard, or_fail, assertion,
  undefined, key_not_found, ◌>>=◌, ◌>>◌,
}

-- A block id is a hash whose first word is the block number.
pub record BlockId : Type 0 where
  pub num_from_id : ℕ
  pub hash : ℕ

abbrev pub no_id : BlockId
no_id = record { num_from_id = 0; hash = 0 }

unfoldable pub same_id : BlockId → BlockId → Bool
same_id a b = (a.num_from_id == b.num_from_id) && (a.hash == b.hash)

pub record IndexEntry : Type 0 where
  pub block_pos : ℕ
  pub block_size : ℕ
  pub block_id : BlockId

-- What a gap in the index file reads as.
abbrev pub empty_entry : IndexEntry
empty_entry = record { block_pos = 0; block_size = 0; block_id = no_id }

pub record BlockDatabase : Type 0 where
  pub block_num_to_pos : List IndexEntry
  pub blocks : List ℕ

-- A write at a position fills the gap before it.
unfoldable pub write_entry : List IndexEntry → ℕ → IndexEntry → List IndexEntry
write_entry [] zero e = e ∷ []
write_entry [] (suc n) e = empty_entry ∷ write_entry [] n e
write_entry (x ∷ xs) zero e = e ∷ xs
write_entry (x ∷ xs) (suc n) e = x ∷ write_entry xs n e

abbrev pub skip : ℕ → List ℕ → List ℕ
skip zero bs = bs
skip (suc n) [] = []
skip (suc n) (b ∷ bs) = skip n bs

-- `size` bytes from `pos`, if the file has them; of no bytes there is nothing to read.
unfoldable pub read_blocks : ℕ → ℕ → List ℕ → Option (List ℕ)
read_blocks pos size bs =
    if size == 0
    then some []
    else if leb (pos + size) (length bs)
    then some (take size (skip pos bs))
    else none

abbrev pub remove_entry : IndexEntry → IndexEntry
remove_entry e = record e { block_size = 0 }

-- `remove`
unfoldable pub remove : BlockId → BlockDatabase → Result BlockDatabase
unfolding write_entry same_id
remove id d = or_fail (get_elem? d.block_num_to_pos id.num_from_id) key_not_found >>= λ e.
    ok (record d {
      block_num_to_pos =
          if same_id e.block_id id
          then write_entry d.block_num_to_pos id.num_from_id (remove_entry e)
          else d.block_num_to_pos;
    })

-- `contains`
unfoldable pub contains : BlockId → BlockDatabase → Bool
unfolding same_id
contains id d = not (same_id id no_id) && elim (get_elem? d.block_num_to_pos id.num_from_id) [
  | none ↦ false
  | some e ↦ same_id e.block_id id && ltb 0 e.block_size
]

-- `fetch_block_id`
unfoldable pub fetch_block_id : ℕ → BlockDatabase → Result BlockId
unfolding same_id
fetch_block_id block_num d =
    guard (not (block_num == 0)) undefined
    >> (or_fail (get_elem? d.block_num_to_pos block_num) key_not_found >>= λ e.
        guard (not (same_id e.block_id no_id)) assertion >> ok e.block_id)

-- The id under which `store` files a block.
abbrev pub filed_under : BlockId → BlockId → BlockId
filed_under given id = if same_id given no_id then id else given

-- `store`
unfoldable pub store :
    {Block : Type 0}
    → (Block → List ℕ)
    → (Block → BlockId)
    → BlockId
    → Block
    → BlockDatabase
    → BlockDatabase
unfolding write_entry same_id
store pack id_of given b d = record {
  block_num_to_pos =
      write_entry d.block_num_to_pos (filed_under given (id_of b)).num_from_id (record {
        block_pos = length d.blocks;
        block_size = length (pack b);
        block_id = filed_under given (id_of b);
      });
  blocks = d.blocks ++ pack b;
}

module _ {Block : Type 0} (unpack : List ℕ → Option Block) (id_of : Block → BlockId) where
  -- The block of an entry, where its bytes are those of a block with its id.
  unfoldable pub read_entry : IndexEntry → List ℕ → Option Block
  unfolding same_id read_blocks
  read_entry e bs = elim (read_blocks e.block_pos e.block_size bs) [
    | none ↦ none
    | some bytes ↦ elim (unpack bytes) [
      | none ↦ none
      | some b ↦ if same_id (id_of b) e.block_id then some b else none
    ]
  ]

  -- `fetch_optional`
  unfoldable pub fetch_optional : BlockId → BlockDatabase → Option Block
  unfolding read_entry
  fetch_optional id d = elim (get_elem? d.block_num_to_pos id.num_from_id) [
    | none ↦ none
    | some e ↦ if same_id e.block_id id then read_entry e d.blocks else none
  ]

  -- `fetch_by_number`
  unfoldable pub fetch_by_number : ℕ → BlockDatabase → Option Block
  unfolding read_entry
  fetch_by_number block_num d = elim (get_elem? d.block_num_to_pos block_num) [
    | none ↦ none
    | some e ↦ read_entry e d.blocks
  ]

  -- The loop of `last_index_entry`: from the end, entries that are no block's are cut off the file.
  unfoldable pub trim : ℕ → BlockDatabase → Option IndexEntry × BlockDatabase
  unfolding read_entry
  trim zero d = (none, d)
  trim (suc pos) d = elim (get_elem? d.block_num_to_pos pos) [
    | none ↦ (none, d)
    | some e ↦
        let rest = trim pos (record d { block_num_to_pos = take pos d.block_num_to_pos }) in
        if ltb 0 e.block_size && is_some (read_entry e d.blocks) then (some e, d) else rest
  ]

  -- `last_index_entry`
  unfoldable pub last_index_entry : BlockDatabase → Option IndexEntry × BlockDatabase
  unfolding trim
  last_index_entry d = trim (length d.block_num_to_pos) d

  -- `last` and `last_id`
  unfoldable pub last : BlockDatabase → Option Block
  unfolding last_index_entry fetch_by_number
  last d = elim (last_index_entry d).0 [
    | none ↦ none
    | some e ↦ fetch_by_number e.block_id.num_from_id (last_index_entry d).1
  ]

  unfoldable pub last_id : BlockDatabase → Option BlockId
  unfolding last_index_entry
  last_id d = elim (last_index_entry d).0 [ none ↦ none | some e ↦ some e.block_id ]
