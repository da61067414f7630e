-- ===== src/Blocks/Bytes.antt =====
-- Writes of the index, and bytes that are appended to the file of blocks.
use karma_core.Base.{
  ℕ, zero, suc, ◌+◌, ◌≤◌, ◌≡◌, ◌≢◌, ◌⊎◌, inl, inr, refl, true, none, some, List, [], ◌∷◌, ◌++◌,
  length, get_elem?, take, arith,
}
use karma_core.Blocks.Files.{
  BlockId, same_id, IndexEntry, empty_entry, BlockDatabase, write_entry, skip,
}

pub get_elem-write :
    (xs : List IndexEntry) (n : ℕ) (e : IndexEntry) → get_elem? (write_entry xs n e) n ≡ some e
unfolding write_entry
get_elem-write [] zero e = refl
get_elem-write [] (suc n) e = get_elem-write [] n e
get_elem-write (x ∷ xs) zero e = refl
get_elem-write (x ∷ xs) (suc n) e = get_elem-write xs n e

-- Elsewhere, an entry stays, and where there was none there may be a gap.
pub get_elem-write_other :
    (xs : List IndexEntry) (n m : ℕ) (e : IndexEntry)
    → m ≢ n
    → (get_elem? (write_entry xs n e) m ≡ get_elem? xs m)
      ⊎ ((get_elem? xs m ≡ none) × (get_elem? (write_entry xs n e) m ≡ some empty_entry))
unfolding write_entry
get_elem-write_other [] zero zero e h = absurd (h refl)
get_elem-write_other [] zero (suc m) e h = inl refl
get_elem-write_other [] (suc n) zero e h = inr (refl, refl)
get_elem-write_other [] (suc n) (suc m) e h = get_elem-write_other [] n m e (λ z. h (omega arith))
get_elem-write_other (x ∷ xs) zero zero e h = absurd (h refl)
get_elem-write_other (x ∷ xs) zero (suc m) e h = inl refl
get_elem-write_other (x ∷ xs) (suc n) zero e h = inl refl
get_elem-write_other (x ∷ xs) (suc n) (suc m) e h =
    get_elem-write_other xs n m e (λ z. h (omega arith))

pub take-length : (p : List ℕ) → take (length p) p ≡ p
take-length [] = refl
take-length (b ∷ p) = rw (take-length p) refl

pub skip-append : (bs p : List ℕ) → skip (length bs) (bs ++ p) ≡ p
skip-append [] p = refl
skip-append (b ∷ bs) p = skip-append bs p

take-append : (n : ℕ) (bs p : List ℕ) → n ≤ length bs → take n (bs ++ p) ≡ take n bs
take-append zero bs p h = refl
take-append (suc n) [] p h = absurd (omega arith)
take-append (suc n) (b ∷ bs) p h = rw (take-append n bs p (omega arith)) refl

pub take-skip-append :
    (pos size : ℕ) (bs p : List ℕ)
    → pos + size ≤ length bs
    → take size (skip pos (bs ++ p)) ≡ take size (skip pos bs)
take-skip-append zero size bs p h = take-append size bs p (omega arith)
take-skip-append (suc pos) size [] p h = absurd (omega arith)
take-skip-append (suc pos) size (b ∷ bs) p h = take-skip-append pos size bs p (omega arith)

-- Every entry's bytes are in the file.
abbrev pub Inside : BlockDatabase → Type 0
Inside d =
    (n : ℕ) (e : IndexEntry)
    → get_elem? d.block_num_to_pos n ≡ some e
    → e.block_pos + e.block_size ≤ length d.blocks

pub same_id_refl : (a : BlockId) → same_id a a ≡ true
unfolding same_id
same_id_refl a = ground arith
