-- ===== src/Store/Examples.antt =====
-- Tests of the undo database, and the theorems about it at concrete sessions.
use karma_core.Base.{
  ℕ, ◌+◌, ◌*◌, ◌^◌, ◌≡◌, refl, false, none, some, List, [], ◌∷◌, ◌==◌, if◌then◌else◌, ok, ok_or,
  ◌>>=◌, arith,
}
use karma_core.Base.Dict.{lookup, insert, erase}
use karma_core.Store.Types.{Database}
use karma_core.Store.Undo.{
  undo, merge, commit, pop_commit, start_undo_session, create, modify, remove, rewind,
  restore_values, note_create, note_modify, note_remove, remove_new, insert_removed, reset_next_ids,
}
use karma_core.Store.Records.{IsFresh, OwnsIds}
use karma_core.Store.Rewind.{popped}
use karma_core.Store.Sessions.{Call, run}
use karma_core.Store.History.{start, kept, undo-run, pop_commit-commit-run, undo-merge-run}

-- The id of the n-th account: space 1, type 2.
abbrev account : ℕ → ℕ
account n = 258 * 2 ^ 48 + n

-- One account, with the value 7, and no session.
abbrev db0 : Database ℕ
db0 = record {
  store = record {
    objects = λ k. if k == account 0 then some 7 else none;
    next_ids = λ i. if i == 258 then account 1 else i * 2 ^ 48;
  };
  undo_db = record { active_sessions = 0; disabled = false; stack = []; max_size = 256 };
}

abbrev calls : List (Call ℕ)
calls =
    Call.creates 258 9
    ∷ Call.modifies (account 0) (λ v. v + 1)
    ∷ Call.modifies (account 1) (λ v. v + 1)
    ∷ Call.removes (account 0)
    ∷ []

abbrev db1 : Database ℕ
db1 = ok_or db0 (run calls (start false db0))

db0-IsFresh : IsFresh db0.store
db0-IsFresh k h = ground arith

db0-OwnsIds : OwnsIds db0.store
db0-OwnsIds i = ground arith

undo_gives_back : (ok_or db0 (undo db1)).store.objects (account 0) ≡ some 7
unfolding undo run start_undo_session create modify remove rewind restore_values note_create
    note_modify note_remove lookup insert erase remove_new insert_removed reset_next_ids
undo_gives_back = refl

removed_before : db1.store.objects (account 0) ≡ none
unfolding run start_undo_session create modify remove
removed_before = refl

undo-run_example :
    undo db1 ≡ ok (record { store = db0.store; undo_db = popped 0 (kept db0.undo_db) db1.undo_db })
unfolding run start_undo_session create modify remove
undo-run_example =
    undo-run false calls db0 {db' = db1} refl db0-IsFresh db0-OwnsIds refl (λ i. ground arith)

pop_commit-commit-run_example :
    (commit db1 >>= pop_commit)
    ≡ ok (record { store = db0.store; undo_db = popped 0 (kept db0.undo_db) db1.undo_db })
unfolding run start_undo_session create modify remove
pop_commit-commit-run_example =
    pop_commit-commit-run false calls db0 {db' = db1} refl db0-IsFresh db0-OwnsIds refl refl
      (λ i. ground arith)

abbrev later_calls : List (Call ℕ)
later_calls = Call.creates 258 4 ∷ Call.removes (account 1) ∷ []

abbrev db2 : Database ℕ
db2 = ok_or db0 (run later_calls (start false db1))

abbrev db3 : Database ℕ
db3 = ok_or db0 (merge db2)

abbrev db4 : Database ℕ
db4 = ok_or db0 (run (Call.removes (account 2) ∷ []) db3)

undo-merge-run_example : (db' : Database ℕ) × (undo db4 ≡ ok db') × (db'.store ≡ db0.store)
unfolding run start_undo_session create modify remove merge
undo-merge-run_example =
    undo-merge-run calls later_calls (Call.removes (account 2) ∷ []) db0 {d1 = db1} {d2 = db2}
      {d3 = db3} {d4 = db4} refl (omega arith) db0-IsFresh db0-OwnsIds refl (λ i. ground arith) refl
      (λ i. ground arith) refl refl (λ i. ground arith)
