-- ===== src/Store/Records.antt =====
-- What an undo state says of two stores, one before a session and one in it; every tracked call
-- keeps it true.
use karma_core.Base.{
  ℕ, ◌+◌, ◌*◌, ◌^◌, ◌≤◌, ◌<◌, ◌≡◌, refl, inl, inr, Bool, true, false, Option, none, some, [], ◌∷◌,
  ◌==◌, if◌then◌else◌, is_some, or_else, arith, Option-cases,
}
use karma_core.Base.Dict.{
  Dict, lookup, insert, contains, Distinct, lookup-insert, lookup-erase, insert-Distinct,
  erase-Distinct,
}
use karma_core.Store.Types.{space_type, index_id, Store, UndoState}
use karma_core.Store.Undo.{empty_state, update, put, note_create, note_modify, note_remove}
use karma_core.Store.Objects.{AreIndexIds, next_overlay}

-- For one id: is it among `new_ids`, its entries in `old_values` and `removed`, and what the store
-- held before and holds after. No id has two entries.
abbrev pub Explained : {V : Type 0} → Bool → Option V → Option V → Option V → Option V → Type 0
Explained true none none b a = (b ≡ none) × (is_some a ≡ true)
Explained false (some v) none b a = (b ≡ some v) × (is_some a ≡ true)
Explained false none (some v) b a = (b ≡ some v) × (a ≡ none)
Explained false none none b a = b ≡ a
Explained true (some _) _ b a = ⊥
Explained true none (some _) b a = ⊥
Explained false (some _) (some _) b a = ⊥

pub insert-AreIndexIds :
    (i id : ℕ) (m : Dict ℕ)
    → space_type i * 2 ^ 48 ≡ i
    → AreIndexIds m
    → AreIndexIds (insert i id m)
unfolding insert
insert-AreIndexIds i id [] e a = (e, tt)
insert-AreIndexIds i id ((j, w) ∷ m) e a = ground (arith, insert-AreIndexIds i id m e a.1)

module _ {V : Type 0} where
  -- Every object's id is below the next id of its index.
  abbrev pub IsFresh : Store V → Type 0
  IsFresh st = (k : ℕ) → is_some (st.objects k) ≡ true → k < st.next_ids (space_type k)

  -- A next id carries its own index's space and type: no instance has overflowed its 48 bits.
  abbrev pub OwnsIds : Store V → Type 0
  OwnsIds st = (i : ℕ) → space_type (st.next_ids i) ≡ i

  pub record Records (s : UndoState V) (b a : Store V) : Type 0 where
    pub explained :
        (k : ℕ)
        → Explained
            (contains k s.new_ids)
            (lookup k s.old_values)
            (lookup k s.removed)
            (b.objects k)
            (a.objects k)
    pub next_back : (i : ℕ) → next_overlay s.old_index_next_ids a.next_ids i ≡ b.next_ids i
    pub next_mono : (i : ℕ) → b.next_ids i ≤ a.next_ids i
    pub new_above : (k : ℕ) → contains k s.new_ids ≡ true → b.next_ids (space_type k) ≤ k
    pub distinct_old : Distinct s.old_values
    pub distinct_new : Distinct s.new_ids
    pub distinct_removed : Distinct s.removed
    pub distinct_next : Distinct s.old_index_next_ids
    pub index_keys : AreIndexIds s.old_index_next_ids

  pub empty_state-Records : (st : Store V) → Records empty_state st st
  unfolding lookup
  empty_state-Records st = record {
    explained = λ k. refl;
    next_back = λ i. refl;
    next_mono = λ i. omega arith;
    new_above = λ k h. ground arith;
    distinct_old = tt;
    distinct_new = tt;
    distinct_removed = tt;
    distinct_next = tt;
    index_keys = tt;
  }

  abbrev pub created : ℕ → V → Store V → Store V
  created i v st = record {
    objects = update st.objects (st.next_ids i) (some v);
    next_ids = λ j. if j == i then st.next_ids i + 1 else st.next_ids j;
  }

  module _ (s : UndoState V) (b a : Store V) (r : Records s b a) where
    modify-Explained :
        (id : ℕ) (v w : V)
        → a.objects id ≡ some v
        → (k : ℕ)
        → let s' = note_modify id v s in
          Explained
            (contains k s'.new_ids)
            (lookup k s'.old_values)
            (lookup k s'.removed)
            (b.objects k)
            (update a.objects id (some w) k)
    unfolding note_modify
    modify-Explained id v w e k =
        ground (arith, r.explained k, r.explained id, lookup-insert id k v s.old_values)

    remove-Explained :
        (id : ℕ) (v : V)
        → a.objects id ≡ some v
        → (k : ℕ)
        → let s' = note_remove id v s in
          Explained
            (contains k s'.new_ids)
            (lookup k s'.old_values)
            (lookup k s'.removed)
            (b.objects k)
            (update a.objects id none k)
    unfolding note_remove
    remove-Explained id v e k = ground (
      arith,
      r.explained k,
      r.explained id,
      lookup-insert id k v s.removed,
      lookup-insert id k (or_else (lookup id s.old_values) v) s.removed,
      lookup-erase id k s.old_values,
      lookup-erase id k s.new_ids,
    )

    create-Explained :
        (id : ℕ) (v : V)
        → a.objects id ≡ none
        → b.objects id ≡ none
        → (k : ℕ)
        → let s' = note_create id s in
          Explained
            (contains k s'.new_ids)
            (lookup k s'.old_values)
            (lookup k s'.removed)
            (b.objects k)
            (update a.objects id (some v) k)
    unfolding note_create
    create-Explained id v e e' k =
        ground (arith, r.explained k, r.explained id, lookup-insert id k tt s.new_ids)

    create-next_back :
        (i : ℕ) (v : V)
        → space_type (a.next_ids i) ≡ i
        → (j : ℕ)
        → next_overlay (note_create (a.next_ids i) s).old_index_next_ids (created i v a).next_ids j
          ≡ b.next_ids j
    unfolding note_create
    create-next_back i v e j =
        let id = a.next_ids i in
        ground (
          arith,
          r.next_back j,
          r.next_back i,
          lookup-insert (index_id id) (j * 2 ^ 48) id s.old_index_next_ids,
        )

    -- A new id is above everything that the store held before.
    new-absent :
        (i : ℕ) → IsFresh b → space_type (a.next_ids i) ≡ i → b.objects (a.next_ids i) ≡ none
    new-absent i f e = elim (Option-cases (b.objects (a.next_ids i))) [
      | inl q ↦ q
      | inr (v, q) ↦ absurd (ground (arith, f (a.next_ids i), r.next_mono i))
    ]

    pub modify-Records :
        (id : ℕ) (v w : V)
        → a.objects id ≡ some v
        → Records (note_modify id v s) b (put id (some w) a)
    unfolding note_modify
    modify-Records id v w e = record {
      explained = modify-Explained id v w e;
      next_back = λ i. ground (arith, r.next_back i);
      next_mono = r.next_mono;
      new_above = λ k h. ground (arith, r.new_above k);
      distinct_old = ground (arith, r.distinct_old, insert-Distinct id v s.old_values);
      distinct_new = ground (arith, r.distinct_new);
      distinct_removed = ground (arith, r.distinct_removed);
      distinct_next = ground (arith, r.distinct_next);
      index_keys = ground (arith, r.index_keys);
    }

    pub remove-Records :
        (id : ℕ) (v : V) → a.objects id ≡ some v → Records (note_remove id v s) b (put id none a)
    unfolding note_remove
    remove-Records id v e = record {
      explained = remove-Explained id v e;
      next_back = λ i. ground (arith, r.next_back i);
      next_mono = r.next_mono;
      new_above = λ k h. ground (arith, r.new_above k, lookup-erase id k s.new_ids);
      distinct_old = ground (arith, r.distinct_old, erase-Distinct id s.old_values);
      distinct_new = ground (arith, r.distinct_new, erase-Distinct id s.new_ids);
      distinct_removed = ground (
        arith,
        r.distinct_removed,
        insert-Distinct id v s.removed,
        insert-Distinct id (or_else (lookup id s.old_values) v) s.removed,
      );
      distinct_next = ground (arith, r.distinct_next);
      index_keys = ground (arith, r.index_keys);
    }

    pub create-Records :
        (i : ℕ) (v : V)
        → IsFresh b
        → space_type (a.next_ids i) ≡ i
        → a.objects (a.next_ids i) ≡ none
        → Records (note_create (a.next_ids i) s) b (created i v a)
    unfolding note_create
    create-Records i v f own e =
        let id = a.next_ids i in
        record {
          explained = create-Explained id v e (new-absent i f own);
          next_back = create-next_back i v own;
          next_mono = λ j. ground (arith, r.next_mono j);
          new_above =
              λ k h. ground (arith, r.new_above k, r.next_mono i, lookup-insert id k tt s.new_ids);
          distinct_old = r.distinct_old;
          distinct_new = insert-Distinct id tt s.new_ids r.distinct_new;
          distinct_removed = r.distinct_removed;
          distinct_next =
              ground
                (arith, r.distinct_next, insert-Distinct (index_id id) id s.old_index_next_ids);
          index_keys =
              ground
                (arith, r.index_keys, insert-AreIndexIds (index_id id) id s.old_index_next_ids);
        }
