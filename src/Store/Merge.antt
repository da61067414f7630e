-- ===== src/Store/Merge.antt =====
-- `undo_database::merge`: the loops entry by entry, and the 4x4 table of the comment in
-- undo_database.cpp as a theorem.
use karma_core.Base.{
  ℕ, ◌≡◌, refl, ◌&&◌, ◌||◌, not, Option, none, some, [], ◌∷◌, if◌then◌else◌, or_else, arith,
}
use karma_core.Base.Dict.{
  Dict, IdSet, lookup, contains, insert, Distinct, lookup-insert, lookup-erase, insert-Distinct,
  erase-Distinct, add,
}
use karma_core.Store.Types.{UndoState}
use karma_core.Store.Undo.{
  merge_old_values, merge_new_ids, merge_next_ids, merge_removed, merge_value, merge_removal,
}
use karma_core.Store.Objects.{AreIndexIds}
use karma_core.Store.Records.{insert-AreIndexIds}

-- The first entry, else the second.
abbrev pub first {ℓ} : {A : Type ℓ} → Option A → Option A → Option A
first none o = o
first (some a) o = some a

module _ {V : Type 0} where
  -- What a loop leaves alone.
  pub lookup-merge_old_values :
      (m : Dict V) (p : UndoState V) (k : ℕ)
      → lookup k (merge_old_values m p).old_values
        ≡ first (lookup k p.old_values) (if contains k p.new_ids then none else lookup k m)
  unfolding merge_old_values lookup
  lookup-merge_old_values [] p k = ground arith
  lookup-merge_old_values ((j, v) ∷ m) p k =
      ground
        (arith, lookup-merge_old_values m (merge_value j v p) k, lookup-insert j k v p.old_values)

  pub merge_old_values_rest :
      (m : Dict V) (p : UndoState V)
      → ((merge_old_values m p).new_ids ≡ p.new_ids)
        × ((merge_old_values m p).removed ≡ p.removed)
        × ((merge_old_values m p).old_index_next_ids ≡ p.old_index_next_ids)
        × (Distinct p.old_values → Distinct (merge_old_values m p).old_values)
  unfolding merge_old_values
  merge_old_values_rest [] p = (refl, refl, refl, λ d. d)
  merge_old_values_rest ((j, v) ∷ m) p =
      ground (arith, merge_old_values_rest m (merge_value j v p), insert-Distinct j v p.old_values)

  pub contains-merge_new_ids :
      (m : IdSet) (p : UndoState V) (k : ℕ)
      → contains k (merge_new_ids m p).new_ids ≡ (contains k p.new_ids || contains k m)
  unfolding merge_new_ids lookup
  contains-merge_new_ids [] p k = ground arith
  contains-merge_new_ids ((j, v) ∷ m) p k = ground (
    arith,
    contains-merge_new_ids m (record p { new_ids = add j p.new_ids }) k,
    lookup-insert j k tt p.new_ids,
  )

  pub merge_new_ids_rest :
      (m : IdSet) (p : UndoState V)
      → ((merge_new_ids m p).old_values ≡ p.old_values)
        × ((merge_new_ids m p).removed ≡ p.removed)
        × ((merge_new_ids m p).old_index_next_ids ≡ p.old_index_next_ids)
        × (Distinct p.new_ids → Distinct (merge_new_ids m p).new_ids)
  unfolding merge_new_ids
  merge_new_ids_rest [] p = (refl, refl, refl, λ d. d)
  merge_new_ids_rest ((j, v) ∷ m) p = ground (
    arith,
    merge_new_ids_rest m (record p { new_ids = add j p.new_ids }),
    insert-Distinct j tt p.new_ids,
  )

  abbrev pub note_next : ℕ → ℕ → UndoState V → UndoState V
  note_next i id p =
      if contains i p.old_index_next_ids
      then p
      else record p { old_index_next_ids = insert i id p.old_index_next_ids }

  pub lookup-merge_next_ids :
      (m : Dict ℕ) (p : UndoState V) (k : ℕ)
      → lookup k (merge_next_ids m p).old_index_next_ids
        ≡ first (lookup k p.old_index_next_ids) (lookup k m)
  unfolding merge_next_ids lookup
  lookup-merge_next_ids [] p k = ground arith
  lookup-merge_next_ids ((i, id) ∷ m) p k = ground (
    arith,
    lookup-merge_next_ids m (note_next i id p) k,
    lookup-insert i k id p.old_index_next_ids,
  )

  pub merge_next_ids_rest :
      (m : Dict ℕ) (p : UndoState V)
      → AreIndexIds m
      → ((merge_next_ids m p).old_values ≡ p.old_values)
        × ((merge_next_ids m p).new_ids ≡ p.new_ids)
        × ((merge_next_ids m p).removed ≡ p.removed)
        × (Distinct p.old_index_next_ids → Distinct (merge_next_ids m p).old_index_next_ids)
        × (AreIndexIds p.old_index_next_ids → AreIndexIds (merge_next_ids m p).old_index_next_ids)
  unfolding merge_next_ids
  merge_next_ids_rest [] p a = (refl, refl, refl, λ d. d, λ d. d)
  merge_next_ids_rest ((i, id) ∷ m) p a = ground (
    arith,
    merge_next_ids_rest m (note_next i id p) a.1,
    insert-Distinct i id p.old_index_next_ids,
    insert-AreIndexIds i id p.old_index_next_ids a.0,
  )

  -- One entry of the loop over `removed`, seen at each key.
  pub record Removes (m : Dict V) (p q : UndoState V) : Type 0 where
    pub new_ids : (k : ℕ) → contains k q.new_ids ≡ (contains k p.new_ids && not (contains k m))
    pub old_values :
        (k : ℕ)
        → lookup k q.old_values
          ≡ (if contains k m && not (contains k p.new_ids) then none else lookup k p.old_values)
    pub removed :
        (k : ℕ)
        → lookup k q.removed ≡ (
            if contains k p.new_ids then lookup k p.removed else elim (lookup k m) [
              | none ↦ lookup k p.removed
              | some v ↦ some (or_else (lookup k p.old_values) v)
            ])

  pub merge_removed-Removes :
      (m : Dict V) (p : UndoState V) → Distinct m → Removes m p (merge_removed m p)
  unfolding merge_removed lookup
  merge_removed-Removes [] p d = record {
    new_ids = λ k. ground arith;
    old_values = λ k. ground arith;
    removed = λ k. ground arith;
  }
  merge_removed-Removes ((j, v) ∷ m) p d =
      let r = merge_removed-Removes m (merge_removal j v p) d.1 in
      record {
        new_ids = λ k. ground (arith, d.0, r.new_ids k, lookup-erase j k p.new_ids);
        old_values = λ k.
            ground (
              arith,
              d.0,
              r.old_values k,
              lookup-erase j k p.new_ids,
              lookup-erase j k p.old_values,
            );
        removed = λ k. ground (
          arith,
          d.0,
          r.removed k,
          lookup-erase j k p.new_ids,
          lookup-erase j k p.old_values,
          lookup-insert j k v p.removed,
          lookup-insert j k (or_else (lookup j p.old_values) v) p.removed,
        );
      }

  pub merge_removed_rest :
      (m : Dict V) (p : UndoState V)
      → ((merge_removed m p).old_index_next_ids ≡ p.old_index_next_ids)
        × (Distinct p.old_values → Distinct (merge_removed m p).old_values)
        × (Distinct p.new_ids → Distinct (merge_removed m p).new_ids)
        × (Distinct p.removed → Distinct (merge_removed m p).removed)
  unfolding merge_removed
  merge_removed_rest [] p = (refl, λ d. d, λ d. d, λ d. d)
  merge_removed_rest ((j, v) ∷ m) p = ground (
    arith,
    merge_removed_rest m (merge_removal j v p),
    erase-Distinct j p.new_ids,
    erase-Distinct j p.old_values,
    insert-Distinct j v p.removed,
    insert-Distinct j (or_else (lookup j p.old_values) v) p.removed,
  )
