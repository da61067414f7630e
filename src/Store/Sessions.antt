-- ===== src/Store/Sessions.antt =====
-- Sessions: any calls between `start_undo_session` and its end.
use karma_core.Base.{
  ℕ, ◌≤◌, ◌≡◌, false, none, some, List, [], ◌∷◌, Result, ok, ◌>>=◌, >>=-eq-ok, ok-injective, subst,
  arith, Option-cases, inl, inr,
}
use karma_core.Store.Types.{Store, UndoState, Database}
use karma_core.Store.Undo.{
  note_create, note_modify, note_remove, on_create, on_modify, on_remove, create, modify, remove,
  put,
}
use karma_core.Store.Records.{
  IsFresh, OwnsIds, Records, created, modify-Records, remove-Records, create-Records,
}

-- A tracked call: `create`, `modify` and `remove` of object_database.hpp.
pub data Call (V : Type 0) : Type 0 where
  creates : ℕ → V → Call V
  modifies : ℕ → (V → V) → Call V
  removes : ℕ → Call V

module _ {V : Type 0} where
  unfoldable pub apply : Call V → Database V → Result (Database V)
  apply (creates i v) db = create i v db
  apply (modifies id m) db = modify id m db
  apply (removes id) db = remove id db

  unfoldable pub run : List (Call V) → Database V → Result (Database V)
  unfolding apply
  run [] db = ok db
  run (c ∷ cs) db = apply c db >>= run cs

  -- The database `active` sessions deep, in one that began at the store `b`.
  pub record InSession (b : Store V) (rest : List (UndoState V)) (active : ℕ) (db : Database V)
      : Type 0 where
    pub state : UndoState V
    pub stacked : db.undo_db.stack ≡ state ∷ rest
    pub records : Records state b db.store
    pub enabled : db.undo_db.disabled ≡ false
    pub count : db.undo_db.active_sessions ≡ active
    pub fresh : IsFresh db.store

  create-eq-ok :
      (i : ℕ) (v : V) (db : Database V) {db' : Database V}
      → create i v db ≡ ok db'
      → (db.store.objects (db.store.next_ids i) ≡ none)
        × (db' ≡ record {
          store = created i v db.store;
          undo_db = on_create (db.store.next_ids i) db.undo_db;
        })
  unfolding create
  create-eq-ok i v db e = ground arith

  modify-eq-ok :
      (id : ℕ) (m : V → V) (db : Database V) {db' : Database V}
      → modify id m db ≡ ok db'
      → (v : V) × (db.store.objects id ≡ some v)
        × (db'
            ≡ record { store = put id (some (m v)) db.store; undo_db = on_modify id v db.undo_db })
  unfolding modify
  modify-eq-ok id m db e = elim (Option-cases (db.store.objects id)) [
    | inl q ↦ absurd (ground arith)
    | inr (v, q) ↦ (v, q, ground arith)
  ]

  remove-eq-ok :
      (id : ℕ) (db : Database V) {db' : Database V}
      → remove id db ≡ ok db'
      → (v : V) × (db.store.objects id ≡ some v)
        × (db' ≡ record { store = put id none db.store; undo_db = on_remove id v db.undo_db })
  unfolding remove
  remove-eq-ok id db e = elim (Option-cases (db.store.objects id)) [
    | inl q ↦ absurd (ground arith)
    | inr (v, q) ↦ (v, q, ground arith)
  ]

  module _ (b : Store V) (rest : List (UndoState V)) (n : ℕ) (db : Database V) (f : IsFresh b)
      (own : OwnsIds db.store) (h : InSession b rest n db) where
    create-InSession :
        (i : ℕ) (v : V) {db' : Database V} → create i v db ≡ ok db' → InSession b rest n db'
    unfolding on_create
    create-InSession i v e =
        let (q, e') = create-eq-ok i v db e in
        rw e' (record {
          state = note_create (db.store.next_ids i) h.state;
          stacked = ground (arith, h.stacked, h.enabled);
          records = create-Records h.state b db.store h.records i v f (own i) q;
          enabled = ground (arith, h.enabled);
          count = ground (arith, h.count);
          fresh = λ k p. ground (arith, h.fresh k, own i);
        })

    modify-InSession :
        (id : ℕ) (m : V → V) {db' : Database V} → modify id m db ≡ ok db' → InSession b rest n db'
    unfolding on_modify
    modify-InSession id m e =
        let (v, q, e') = modify-eq-ok id m db e in
        rw e' (record {
          state = note_modify id v h.state;
          stacked = ground (arith, h.stacked, h.enabled);
          records = modify-Records h.state b db.store h.records id v (m v) q;
          enabled = ground (arith, h.enabled);
          count = ground (arith, h.count);
          fresh = λ k p. ground (arith, h.fresh k);
        })

    remove-InSession : (id : ℕ) {db' : Database V} → remove id db ≡ ok db' → InSession b rest n db'
    unfolding on_remove
    remove-InSession id e =
        let (v, q, e') = remove-eq-ok id db e in
        rw e' (record {
          state = note_remove id v h.state;
          stacked = ground (arith, h.stacked, h.enabled);
          records = remove-Records h.state b db.store h.records id v q;
          enabled = ground (arith, h.enabled);
          count = ground (arith, h.count);
          fresh = λ k p. ground (arith, h.fresh k);
        })

    -- Every tracked call keeps the record of the session.
    pub apply-InSession :
        (c : Call V) {db' : Database V} → apply c db ≡ ok db' → InSession b rest n db'
    unfolding apply
    apply-InSession (creates i v) e = create-InSession i v e
    apply-InSession (modifies id m) e = modify-InSession id m e
    apply-InSession (removes id) e = remove-InSession id e

  apply-next_mono :
      (c : Call V) (db : Database V) {db' : Database V}
      → apply c db ≡ ok db'
      → (i : ℕ) → db.store.next_ids i ≤ db'.store.next_ids i
  unfolding apply
  apply-next_mono (creates j v) db e i = ground (arith, create-eq-ok j v db e)
  apply-next_mono (modifies id m) db e i = ground (arith, modify-eq-ok id m db e)
  apply-next_mono (removes id) db e i = ground (arith, remove-eq-ok id db e)

  run-next_mono :
      (cs : List (Call V)) (db : Database V) {db' : Database V}
      → run cs db ≡ ok db'
      → (i : ℕ) → db.store.next_ids i ≤ db'.store.next_ids i
  unfolding run
  run-next_mono [] db e i = ground arith
  run-next_mono (c ∷ cs) db {db' = db'} e i =
      let (d, p, q) = >>=-eq-ok (apply c db) (run cs) {value = db'} e in
      omega (arith, apply-next_mono c db p i, run-next_mono cs d q i)

  -- So does every run whose next ids have not overflowed at its end.
  pub run-InSession :
      (b : Store V) (rest : List (UndoState V)) (n : ℕ) (cs : List (Call V)) (db : Database V)
      {db' : Database V}
      → IsFresh b
      → OwnsIds db.store
      → InSession b rest n db
      → run cs db ≡ ok db'
      → OwnsIds db'.store
      → InSession b rest n db'
  unfolding run
  run-InSession b rest n [] db f own h e own' = subst (InSession b rest n) (ok-injective e) h
  run-InSession b rest n (c ∷ cs) db {db' = db'} f own h e own' =
      let (d, p, q) = >>=-eq-ok (apply c db) (run cs) {value = db'} e in
      run-InSession b rest n cs d f
        (λ i. ground (arith, own i, own' i, apply-next_mono c db p i, run-next_mono cs d q i))
        (apply-InSession b rest n db f own h c p) q own'
