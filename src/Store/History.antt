-- ===== src/Store/History.antt =====
-- What a session promises: undone it never happened, merged it is part of the one around it,
-- committed it can still be popped.
use karma_core.Base.{
  ℕ, zero, suc, ◌+◌, ◌-◌, ◌≤◌, ◌<◌, ◌≡◌, refl, Bool, false, ◌&&◌, not, List, [], ◌∷◌, ltb, length,
  ok, arith, Bool-cases, inl, inr, ◌>>=◌, ok-injective, subst, sym, ◌∙◌,
}
use karma_core.Store.Types.{Store, UndoState, UndoDatabase, Database}
use karma_core.Store.Undo.{
  empty_state, pop_front, trim, start_undo_session, undo, commit, pop_commit, merge, merge_states,
}
use karma_core.Store.Records.{IsFresh, OwnsIds, Records, empty_state-Records}
use karma_core.Store.Rewind.{popped, undo_lem, pop_commit_lem}
use karma_core.Store.Compose.{merge_states-Records}
use karma_core.Store.Sessions.{Call, run, InSession, run-InSession}

module _ {V : Type 0} where
  length-pop_front : (st : List (UndoState V)) → length (pop_front st) ≡ length st - 1
  length-pop_front [] = omega arith
  length-pop_front (s ∷ []) = omega arith
  length-pop_front (s ∷ t ∷ rest) = omega (arith, length-pop_front (t ∷ rest))

  trim-le :
      (fuel bound : ℕ) (st : List (UndoState V))
      → length st ≤ fuel
      → length (trim fuel bound st) ≤ bound
  unfolding trim
  trim-le zero bound st h = omega arith
  trim-le (suc f) bound st h = ground (arith, trim-le f bound (pop_front st), length-pop_front st)

  -- The fuel, the size of the stack, is enough: trimming leaves at most the bound.
  pub length-trim-le :
      (bound : ℕ) (st : List (UndoState V)) → length (trim (length st) bound st) ≤ bound
  length-trim-le bound st = trim-le (length st) bound st (omega arith)

  pop_front-cons :
      (s t : UndoState V) (rest : List (UndoState V))
      → pop_front (s ∷ t ∷ rest) ≡ s ∷ pop_front (t ∷ rest)
  pop_front-cons s t rest = refl

  -- Trimming to one state or more keeps the latest.
  trim-cons :
      (fuel bound : ℕ) (s : UndoState V) (rest : List (UndoState V))
      → 1 ≤ bound
      → (rest' : List (UndoState V)) × (trim fuel bound (s ∷ rest) ≡ s ∷ rest')
  unfolding trim
  trim-cons zero bound s rest h = (rest, refl)
  trim-cons (suc f) bound s [] h = ([], ground arith)
  trim-cons (suc f) bound s (t ∷ rest) h = elim (Bool-cases (ltb bound (length (s ∷ t ∷ rest)))) [
    | inl e ↦ rw e (trim-cons f bound s (pop_front (t ∷ rest)) h)
    | inr e ↦ (t ∷ rest, rw e)
  ]

  abbrev pub kept : UndoDatabase V → List (UndoState V)
  kept u = trim (length u.stack) u.max_size u.stack

  kept-cons :
      (db : Database V) (s : UndoState V) (rest : List (UndoState V))
      → db.undo_db.stack ≡ s ∷ rest
      → 1 ≤ db.undo_db.max_size
      → (rest' : List (UndoState V)) × (kept db.undo_db ≡ s ∷ rest')
  kept-cons db s rest e h =
      let (rest', q) = trim-cons (length (s ∷ rest)) db.undo_db.max_size s rest h in (rest', rw e q)

  -- The database that `start_undo_session` leaves.
  abbrev pub start : Bool → Database V → Database V
  start force db = (start_undo_session force db).0

  start-InSession :
      (force : Bool) (db : Database V)
      → (db.undo_db.disabled && not force) ≡ false
      → IsFresh db.store
      → InSession db.store (kept db.undo_db) (db.undo_db.active_sessions + 1) (start force db)
  unfolding start_undo_session
  start-InSession force db e f =
      rw (e, start)
        (record {
          state = empty_state;
          stacked = refl;
          records = empty_state-Records db.store;
          enabled = ground arith;
          count = refl;
          fresh = f;
        })

  start-store : (force : Bool) (db : Database V) → (start force db).store ≡ db.store
  unfolding start_undo_session
  start-store force db = ground arith

  -- The run of a session, from its start.
  session-InSession :
      (force : Bool) (cs : List (Call V)) (db : Database V) {db' : Database V}
      → (db.undo_db.disabled && not force) ≡ false
      → IsFresh db.store
      → OwnsIds db.store
      → run cs (start force db) ≡ ok db'
      → OwnsIds db'.store
      → InSession db.store (kept db.undo_db) (db.undo_db.active_sessions + 1) db'
  session-InSession force cs db {db' = db'} e f own r own' =
      run-InSession db.store _ _ cs (start force db) {db' = db'} f
        (λ i. rw (start-store force db) (own i)) (start-InSession force db e f) r own'

  -- A session that is undone leaves the objects and the next ids as they were when it started, and
  -- as many sessions active: whatever was created, modified and removed in it, in a database whose
  -- ids lie below their index's next id, as long as no instance number overflows its 48 bits. The undo
  -- history is enabled, or the session forces it to be.
  pub undo-run :
      (force : Bool) (cs : List (Call V)) (db : Database V) {db' : Database V}
      → (db.undo_db.disabled && not force) ≡ false
      → IsFresh db.store
      → OwnsIds db.store
      → run cs (start force db) ≡ ok db'
      → OwnsIds db'.store
      → undo db'
        ≡ ok (record {
          store = db.store;
          undo_db = popped db.undo_db.active_sessions (kept db.undo_db) db'.undo_db;
        })
  undo-run force cs db {db' = db'} e f own r own' =
      let s = session-InSession force cs db {db' = db'} e f own r own' in
      let n : db'.undo_db.active_sessions - 1 ≡ db.undo_db.active_sessions =
        omega (arith, s.count) in
      rw (← n) (
        undo_lem s.state (kept db.undo_db) db.store db' s.records s.stacked s.enabled
          (omega (arith, s.count)))

  commit-keeps :
      (db : Database V)
      → 0 < db.undo_db.active_sessions
      → commit db
        ≡ ok (record db {
          undo_db = record (db.undo_db) { active_sessions = db.undo_db.active_sessions - 1 };
        })
  unfolding commit
  commit-keeps db h = ground arith

  -- A session that is committed while no other is active can be popped: `pop_commit` then restores
  -- the objects and the next ids from before the session. The undo history is enabled or forced to be,
  -- the ids lie below their index's next id, and no instance number overflows its 48 bits.
  pub pop_commit-commit-run :
      (force : Bool) (cs : List (Call V)) (db : Database V) {db' : Database V}
      → (db.undo_db.disabled && not force) ≡ false
      → IsFresh db.store
      → OwnsIds db.store
      → db.undo_db.active_sessions ≡ 0
      → run cs (start force db) ≡ ok db'
      → OwnsIds db'.store
      → (commit db' >>= pop_commit)
        ≡ ok (record { store = db.store; undo_db = popped 0 (kept db.undo_db) db'.undo_db })
  pop_commit-commit-run force cs db {db' = db'} e f own idle r own' =
      let s = session-InSession force cs db {db' = db'} e f own r own' in
      rw (commit-keeps db' (omega (arith, s.count))) (
        pop_commit_lem s.state (kept db.undo_db) db.store
          (record db' {
            undo_db = record (db'.undo_db) { active_sessions = db'.undo_db.active_sessions - 1 };
          })
          s.records s.stacked (omega (arith, s.count)))

  merge_lem :
      (db : Database V) (t s : UndoState V) (rest : List (UndoState V))
      → db.undo_db.stack ≡ t ∷ s ∷ rest
      → 0 < db.undo_db.active_sessions
      → merge db
        ≡ ok (record db {
          undo_db = record (db.undo_db) {
            stack = merge_states s t ∷ rest;
            active_sessions = db.undo_db.active_sessions - 1;
          };
        })
  unfolding merge
  merge_lem db t s rest e h = ground arith

  merge-InSession :
      (b m : Store V) (rest : List (UndoState V)) (n : ℕ) (s : UndoState V) (db : Database V)
      {db' : Database V}
      → IsFresh b
      → Records s b m
      → InSession m (s ∷ rest) (n + 1) db
      → merge db ≡ ok db'
      → InSession b rest n db'
  merge-InSession b m rest n s db f r h e =
      let step = merge_lem db h.state s rest h.stacked (omega (arith, h.count)) in
      subst (InSession b rest n) (ok-injective (sym step ∙ e)) (record {
        state = merge_states s h.state;
        stacked = refl;
        records = merge_states-Records s h.state b m db.store f r h.records;
        enabled = h.enabled;
        count = omega (arith, h.count);
        fresh = h.fresh;
      })

  merge-store : (db : Database V) {db' : Database V} → merge db ≡ ok db' → db'.store ≡ db.store
  unfolding merge
  merge-store db e = ground arith

  -- A session that is merged into the one around it is undone with it: a session, a second one
  -- started in it after any calls, the merge of the second, any more calls, and the undo of the
  -- first give back the objects and next ids from before both. The undo history is
  -- enabled and holds at least one state (`max_size`), the ids lie below their index's next id, and no
  -- instance number overflows.
  pub undo-merge-run :
      (cs ds es : List (Call V)) (db : Database V) {d1 d2 d3 d4 : Database V}
      → db.undo_db.disabled ≡ false
      → 1 ≤ d1.undo_db.max_size
      → IsFresh db.store
      → OwnsIds db.store
      → run cs (start false db) ≡ ok d1
      → OwnsIds d1.store
      → run ds (start false d1) ≡ ok d2
      → OwnsIds d2.store
      → merge d2 ≡ ok d3
      → run es d3 ≡ ok d4
      → OwnsIds d4.store
      → (db' : Database V) × (undo d4 ≡ ok db') × (db'.store ≡ db.store)
  undo-merge-run cs ds es db {d1} {d2} {d3} {d4} e room f own r1 own1 r2 own2 mg r3 own4 =
      let s1 = session-InSession false cs db {db' = d1} (ground arith) f own r1 own1 in
      let s2 =
        session-InSession false ds d1 {db' = d2} (ground (arith, s1.enabled)) s1.fresh own1 r2
          own2 in
      let (rest, k) = kept-cons d1 s1.state (kept db.undo_db) s1.stacked room in
      let s3 =
        merge-InSession db.store d1.store rest d1.undo_db.active_sessions s1.state d2 {db' = d3} f
          s1.records (subst (λ st. InSession d1.store st (d1.undo_db.active_sessions + 1) d2) k s2)
          mg in
      let s4 =
        run-InSession db.store rest d1.undo_db.active_sessions es d3 {db' = d4} f
          (λ i. rw (merge-store d2 {db' = d3} mg) (own2 i)) s3 r3 own4 in
      (
        _,
        undo_lem s4.state rest db.store d4 s4.records s4.stacked s4.enabled
            (omega (arith, s1.count, s4.count)),
        refl,
      )
