-- ===== src/Store/Rewind.antt =====
-- `undo` and `pop_commit`: the state at the back of the stack takes the store back to what it was.
use karma_core.Base.{
  ℕ, ◌-◌, ◌<◌, ◌≡◌, refl, ap, ◌∙◌, fun_ext, true, false, Option, none, List, ◌∷◌, is_some, ok,
  arith,
}
use karma_core.Base.Dict.{contains}
use karma_core.Store.Types.{Store, UndoState, UndoDatabase, Database}
use karma_core.Store.Undo.{rewind, undo, pop_commit, set_disabled}
use karma_core.Store.Objects.{
  overlay, without, with_objects, with_next_ids, next_overlay, restore_values_lem, remove_new_lem,
  reset_next_ids_lem, insert_removed_lem,
}
use karma_core.Store.Records.{Records}

module _ {V : Type 0} where
  -- The four loops, as one function on the objects.
  abbrev rewound : UndoState V → (ℕ → Option V) → ℕ → Option V
  rewound s f = overlay s.removed (without s.new_ids (overlay s.old_values f))

  module _ (s : UndoState V) (b : Store V) (db : Database V) (r : Records s b db.store) where
    rewound-eq : rewound s db.store.objects ≡ b.objects
    rewound-eq = fun_ext λ k. ground (arith, r.explained k)

    next_overlay-eq : next_overlay s.old_index_next_ids db.store.next_ids ≡ b.next_ids
    next_overlay-eq = fun_ext r.next_back

    old-present : (k : ℕ) → contains k s.old_values ≡ true → is_some (db.store.objects k) ≡ true
    old-present k h = ground (arith, r.explained k)

    new-present :
        (k : ℕ)
        → contains k s.new_ids ≡ true
        → is_some (overlay s.old_values db.store.objects k) ≡ true
    new-present k h = ground (arith, r.explained k)

    removed-absent :
        (k : ℕ)
        → contains k s.removed ≡ true
        → without s.new_ids (overlay s.old_values db.store.objects) k ≡ none
    removed-absent k h = ground (arith, r.explained k)

    pub rewind_lem : db.undo_db.disabled ≡ true → rewind s db ≡ ok (record db { store = b })
    unfolding rewind
    rewind_lem off =
        let f = overlay s.old_values db.store.objects in
        let g = without s.new_ids f in
        let d1 = with_objects f db in
        let d2 = with_objects g db in
        rw (restore_values_lem s.old_values db off r.distinct_old old-present) (
          rw (remove_new_lem s.new_ids d1 off r.distinct_new new-present) (
            rw (reset_next_ids_lem s.old_index_next_ids d2 r.distinct_next r.index_keys) (
              insert_removed_lem s.removed
                (with_next_ids (next_overlay s.old_index_next_ids db.store.next_ids) d2)
                r.distinct_removed removed-absent
              ∙ ap (λ (st : Store V). ok (record db { store = st }))
                  (λ i. record { objects = rewound-eq i; next_ids = next_overlay-eq i }))))

  -- The undo database after the back state is gone.
  abbrev pub popped : ℕ → List (UndoState V) → UndoDatabase V → UndoDatabase V
  popped active rest u = record u { stack = rest; disabled = false; active_sessions = active }

  -- `undo` succeeds in a session and gives back the store from before it.
  pub undo_lem :
      (s : UndoState V) (rest : List (UndoState V)) (b : Store V) (db : Database V)
      → Records s b db.store
      → db.undo_db.stack ≡ s ∷ rest
      → db.undo_db.disabled ≡ false
      → 0 < db.undo_db.active_sessions
      → undo db
        ≡ ok (record {
          store = b;
          undo_db = popped (db.undo_db.active_sessions - 1) rest db.undo_db;
        })
  unfolding undo
  undo_lem s rest b db r stacked enabled active =
      ground (arith, rewind_lem s b (set_disabled true db) r refl)

  -- So does `pop_commit` when no session is active.
  pub pop_commit_lem :
      (s : UndoState V) (rest : List (UndoState V)) (b : Store V) (db : Database V)
      → Records s b db.store
      → db.undo_db.stack ≡ s ∷ rest
      → db.undo_db.active_sessions ≡ 0
      → pop_commit db ≡ ok (record { store = b; undo_db = popped 0 rest db.undo_db })
  unfolding pop_commit
  pop_commit_lem s rest b db r stacked idle =
      ground (arith, rewind_lem s b (set_disabled true db) r refl)
