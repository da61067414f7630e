-- ===== src/Blocks/Kept.antt =====
-- A store or a removal leaves the blocks of other numbers.
use karma_core.Base.{
  ℕ, ◌+◌, ◌≤◌, ◌≡◌, ◌≢◌, ◌⊎◌, inl, inr, refl, true, false, ◌==◌, Option, none, List, [], ◌∷◌, ◌++◌,
  length, get_elem?, ok, arith, length-append, Bool-cases, Option-cases, ◌∙◌, sym, subst,
}
use karma_core.Blocks.Files.{
  BlockId, no_id, same_id, IndexEntry, empty_entry, BlockDatabase, write_entry, read_blocks,
  remove_entry, remove, contains, store, read_entry, fetch_optional, fetch_by_number,
}
use karma_core.Blocks.Bytes.{get_elem-write, get_elem-write_other, take-skip-append, Inside}
use karma_core.Blocks.Stored.{SameAt, store_lem}

append-nil : (bs : List ℕ) → bs ++ [] ≡ bs
append-nil [] = refl
append-nil (b ∷ bs) = rw (append-nil bs) refl

write-Inside :
    (n : ℕ) (new : IndexEntry) (d : BlockDatabase) (p : List ℕ)
    → Inside d
    → new.block_pos + new.block_size ≤ length d.blocks + length p
    → Inside
        (record { block_num_to_pos = write_entry d.block_num_to_pos n new; blocks = d.blocks ++ p })
write-Inside n new d p h le m e x =
    let l = length-append d.blocks p in
    let g = get_elem-write d.block_num_to_pos n new in
    elim (Bool-cases (m == n)) [
      | inl f ↦
          let z : m ≡ n = ground arith in let y : new ≡ e = ground arith in rw (sym y) (omega arith)
      | inr f ↦ elim (get_elem-write_other d.block_num_to_pos n m new (ground arith)) [
        | inl y ↦ let z = h m e (sym y ∙ x) in omega arith
        | inr (y, z) ↦ let w : empty_entry ≡ e = ground arith in rw (sym w) (omega arith)
      ]
    ]

module _ {Block : Type 0} (unpack : List ℕ → Option Block) (id_of : Block → BlockId)
    (empty : unpack [] ≡ none) where
  read-empty : (bs : List ℕ) → read_entry unpack id_of empty_entry bs ≡ none
  unfolding read_entry read_blocks
  read-empty bs = rw empty refl

  read-append :
      (e : IndexEntry) (bs p : List ℕ)
      → e.block_pos + e.block_size ≤ length bs
      → read_entry unpack id_of e (bs ++ p) ≡ read_entry unpack id_of e bs
  unfolding read_entry read_blocks
  read-append e bs p h =
      let l = length-append bs p in
      let t = take-skip-append e.block_pos e.block_size bs p h in
      let q : read_blocks e.block_pos e.block_size (bs ++ p)
          ≡ read_blocks e.block_pos e.block_size bs =
        ground arith in
      rw (q, read_entry) refl

  -- Where the bytes of every entry are read alike and an index write is elsewhere, an id is read alike.
  elsewhere-SameAt :
      (id : BlockId) (n : ℕ) (e : IndexEntry) (d : BlockDatabase) (p : List ℕ)
      → Inside d
      → id.num_from_id ≢ n
      → SameAt unpack id_of id d
          (record { block_num_to_pos = write_entry d.block_num_to_pos n e; blocks = d.blocks ++ p })
  unfolding fetch_optional fetch_by_number contains
  elsewhere-SameAt id n e d p h ne =
      let r = read-empty (d.blocks ++ p) in
      elim (get_elem-write_other d.block_num_to_pos n id.num_from_id e ne) [
        | inr (x, y) ↦ record {
          fetched = ground arith;
          by_number = ground arith;
          contained = ground arith;
        }
        | inl x ↦ elim (Option-cases (get_elem? d.block_num_to_pos id.num_from_id)) [
          | inl y ↦ record {
            fetched = ground arith;
            by_number = ground arith;
            contained = ground arith;
          }
          | inr (f, y) ↦
              let z = read-append f d.blocks p (h id.num_from_id f y) in
              record { fetched = ground arith; by_number = ground arith; contained = ground arith }
        ]
      ]

  -- Where unpacking fails on no bytes, and the entries' bytes are in the file, a block that is stored,
  -- under no id or its own, leaves what is read of an id of another number, and the bytes of all
  -- entries are still in the file.
  pub store-SameAt :
      (pack : Block → List ℕ) (b : Block) (given id : BlockId) (d : BlockDatabase)
      → (given ≡ no_id) ⊎ (given ≡ id_of b)
      → Inside d
      → id.num_from_id ≢ (id_of b).num_from_id
      → SameAt unpack id_of id d (store pack id_of given b d) × Inside (store pack id_of given b d)
  store-SameAt pack b given id d g h ne =
      let new : IndexEntry = record {
        block_pos = length d.blocks;
        block_size = length (pack b);
        block_id = id_of b;
      } in
      rw (store_lem pack unpack id_of b given d g) (
        elsewhere-SameAt id (id_of b).num_from_id new d (pack b) h ne,
        write-Inside (id_of b).num_from_id new d (pack b) h (omega arith),
      )

  -- A block that is contained is removed: it is no longer found by its id, and what is read of an id of
  -- another number stays, where unpacking fails on no bytes and the entries' bytes are in the file.
  pub remove-contains :
      (id : BlockId) (d : BlockDatabase)
      → Inside d
      → contains id d ≡ true
      → (d' : BlockDatabase) × (remove id d ≡ ok d')
        × (contains id d' ≡ false)
        × (fetch_optional unpack id_of id d' ≡ none)
        × ((other : BlockId) → other.num_from_id ≢ id.num_from_id → SameAt unpack id_of other d d')
  unfolding remove contains fetch_optional read_entry read_blocks
  remove-contains id d h c = elim (Option-cases (get_elem? d.block_num_to_pos id.num_from_id)) [
    | inl x ↦ absurd (ground arith)
    | inr (e, x) ↦
        let i = id.num_from_id in
        let g = get_elem-write d.block_num_to_pos i (remove_entry e) in
        let s : same_id e.block_id id ≡ true = ground arith in
        (
          record d { block_num_to_pos = write_entry d.block_num_to_pos i (remove_entry e) },
          ground arith,
          ground arith,
          ground arith,
          λ other ne.
              let q = elsewhere-SameAt other i (remove_entry e) d [] h ne in
              subst
                (λ bs. SameAt unpack id_of other d (record {
                  block_num_to_pos = write_entry d.block_num_to_pos i (remove_entry e);
                  blocks = bs;
                }))
                (append-nil d.blocks) q,
        )
  ]
