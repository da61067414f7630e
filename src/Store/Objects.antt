-- ===== src/Store/Objects.antt =====
-- What the loops of `undo` and `pop_commit` do to the objects and the next ids, with tracking off.
use karma_core.Base.{
  ℕ, ◌*◌, ◌^◌, ◌≡◌, refl, ap, ◌∙◌, fun_ext, inl, inr, true, Option, none, some, [], ◌∷◌, ◌==◌,
  if◌then◌else◌, is_some, Option-cases, ok, arith,
}
use karma_core.Base.Dict.{Dict, IdSet, lookup, contains, Distinct}
use karma_core.Store.Types.{space_type, Database}
use karma_core.Store.Undo.{
  update, modify, remove, insert_object, set_next_id, restore_values, remove_new, reset_next_ids,
  insert_removed,
}

-- The keys of `old_index_next_ids` have instance 0.
abbrev pub AreIndexIds : Dict ℕ → Type 0
AreIndexIds [] = Unit
AreIndexIds ((i, id) ∷ m) = (space_type i * 2 ^ 48 ≡ i) × AreIndexIds m

abbrev pub next_overlay : Dict ℕ → (ℕ → ℕ) → ℕ → ℕ
next_overlay m n i = elim (lookup (i * 2 ^ 48) m) [ none ↦ n i | some id ↦ id ]

next_overlay-cons :
    (i id : ℕ) (m : Dict ℕ) (n : ℕ → ℕ)
    → lookup i m ≡ none
    → space_type i * 2 ^ 48 ≡ i
    → next_overlay m (λ j. if j == space_type i then id else n j) ≡ next_overlay ((i, id) ∷ m) n
unfolding lookup
next_overlay-cons i id m n d e = fun_ext λ k. ground arith

module _ {V : Type 0} where
  abbrev pub with_objects : (ℕ → Option V) → Database V → Database V
  with_objects f db = record db { store = record { objects = f; next_ids = db.store.next_ids } }

  -- The entries of `m` written over `f`.
  abbrev pub overlay : Dict V → (ℕ → Option V) → ℕ → Option V
  overlay m f k = elim (lookup k m) [ none ↦ f k | some v ↦ some v ]

  -- The keys of `m` taken out of `f`.
  abbrev pub without : IdSet → (ℕ → Option V) → ℕ → Option V
  without m f k = if contains k m then none else f k

  overlay-cons :
      (j : ℕ) (v : V) (m : Dict V) (f : ℕ → Option V)
      → lookup j m ≡ none
      → overlay m (update f j (some v)) ≡ overlay ((j, v) ∷ m) f
  unfolding lookup
  overlay-cons j v m f d = fun_ext λ k. ground arith

  without-cons :
      (j : ℕ) (m : IdSet) (f : ℕ → Option V)
      → lookup j m ≡ none
      → without m (update f j none) ≡ without ((j, tt) ∷ m) f
  unfolding lookup
  without-cons j m f d = fun_ext λ k. ground arith

  abbrev Present : {A : Type 0} → Dict A → (ℕ → Option V) → Type 0
  Present m f = (k : ℕ) → contains k m ≡ true → is_some (f k) ≡ true

  Present-tail :
      {A : Type 0} (j : ℕ) (a : A) (m : Dict A) (f : ℕ → Option V) (o : Option V)
      → lookup j m ≡ none
      → Present ((j, a) ∷ m) f
      → Present m (update f j o)
  unfolding lookup
  Present-tail j a m f o d p k h = ground (arith, p k)

  modify_off :
      (id : ℕ) (m : V → V) (w : V) (db : Database V)
      → db.undo_db.disabled ≡ true
      → db.store.objects id ≡ some w
      → modify id m db ≡ ok (with_objects (update db.store.objects id (some (m w))) db)
  unfolding modify
  modify_off id m w db off e = ground arith

  remove_off :
      (id : ℕ) (w : V) (db : Database V)
      → db.undo_db.disabled ≡ true
      → db.store.objects id ≡ some w
      → remove id db ≡ ok (with_objects (update db.store.objects id none) db)
  unfolding remove
  remove_off id w db off e = ground arith

  Present-head :
      {A : Type 0} (j : ℕ) (a : A) (m : Dict A) (f : ℕ → Option V)
      → Present ((j, a) ∷ m) f
      → (v : V) × (f j ≡ some v)
  unfolding lookup
  Present-head j a m f p = elim (Option-cases (f j)) [
    | inl e ↦ ground (arith, p j)
    | inr (v, e) ↦ (v, e)
  ]

  -- `restore_values` writes back every recorded value.
  pub restore_values_lem :
      (m : Dict V) (db : Database V)
      → db.undo_db.disabled ≡ true
      → Distinct m
      → Present m db.store.objects
      → restore_values m db ≡ ok (with_objects (overlay m db.store.objects) db)
  unfolding restore_values lookup
  restore_values_lem [] db off d p = refl
  restore_values_lem ((j, v) ∷ m) db off d p =
      let f = db.store.objects in
      let (w, e) = Present-head j v m f p in
      rw (modify_off j (λ _. v) w db off e) (
        restore_values_lem m (with_objects (update f j (some v)) db) off d.1
          (Present-tail j v m f (some v) d.0 p)
        ∙ ap (λ g. ok (with_objects g db)) (overlay-cons j v m f d.0))

  -- `remove_new` takes out every recorded id.
  pub remove_new_lem :
      (m : IdSet) (db : Database V)
      → db.undo_db.disabled ≡ true
      → Distinct m
      → Present m db.store.objects
      → remove_new m db ≡ ok (with_objects (without m db.store.objects) db)
  unfolding remove_new lookup
  remove_new_lem [] db off d p = refl
  remove_new_lem ((j, v) ∷ m) db off d p =
      let f = db.store.objects in
      let (w, e) = Present-head j v m f p in
      rw (remove_off j w db off e) (
        remove_new_lem m (with_objects (update f j none) db) off d.1
          (Present-tail j v m f none d.0 p)
        ∙ ap (λ g. ok (with_objects g db)) (without-cons j m f d.0))

  abbrev Absent : Dict V → (ℕ → Option V) → Type 0
  Absent m f = (k : ℕ) → contains k m ≡ true → f k ≡ none

  Absent-tail :
      (j : ℕ) (v : V) (m : Dict V) (f : ℕ → Option V) (o : Option V)
      → lookup j m ≡ none
      → Absent ((j, v) ∷ m) f
      → Absent m (update f j o)
  unfolding lookup
  Absent-tail j v m f o d p k h = ground (arith, p k)

  insert_object_lem :
      (id : ℕ) (v : V) (db : Database V)
      → db.store.objects id ≡ none
      → insert_object id v db ≡ ok (with_objects (update db.store.objects id (some v)) db)
  unfolding insert_object
  insert_object_lem id v db e = ground arith

  Absent-head : (j : ℕ) (v : V) (m : Dict V) (f : ℕ → Option V) → Absent ((j, v) ∷ m) f → f j ≡ none
  unfolding lookup
  Absent-head j v m f p = ground (arith, p j)

  -- `insert_removed` puts back every removed object.
  pub insert_removed_lem :
      (m : Dict V) (db : Database V)
      → Distinct m
      → Absent m db.store.objects
      → insert_removed m db ≡ ok (with_objects (overlay m db.store.objects) db)
  unfolding insert_removed lookup
  insert_removed_lem [] db d p = refl
  insert_removed_lem ((j, v) ∷ m) db d p =
      let f = db.store.objects in
      rw (insert_object_lem j v db (Absent-head j v m f p)) (
        insert_removed_lem m (with_objects (update f j (some v)) db) d.1
          (Absent-tail j v m f (some v) d.0 p)
        ∙ ap (λ g. ok (with_objects g db)) (overlay-cons j v m f d.0))

  abbrev pub with_next_ids : (ℕ → ℕ) → Database V → Database V
  with_next_ids n db = record db { store = record { objects = db.store.objects; next_ids = n } }

  -- `reset_next_ids` sets back the next id of every recorded index.
  pub reset_next_ids_lem :
      (m : Dict ℕ) (db : Database V)
      → Distinct m
      → AreIndexIds m
      → reset_next_ids m db ≡ with_next_ids (next_overlay m db.store.next_ids) db
  unfolding reset_next_ids lookup
  reset_next_ids_lem [] db d a = refl
  reset_next_ids_lem ((i, id) ∷ m) db d a =
      reset_next_ids_lem m (set_next_id (space_type i) id db) d.1 a.1
      ∙ ap (λ n. with_next_ids n db) (next_overlay-cons i id m db.store.next_ids d.0 a.0)
