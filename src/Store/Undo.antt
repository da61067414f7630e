-- ===== src/Store/Undo.antt =====
-- undo_database.cpp, and the calls of primary_index (index.hpp, generic_index.hpp) that it tracks.
-- The maps and sets of an undo state are unordered containers; a loop over one runs in list order.
use karma_core.Base.{
  ℕ, zero, suc, ◌+◌, ◌-◌, Bool, true, false, ◌&&◌, not, Option, none, some, List, [], ◌∷◌, ltb,
  ◌==◌, if◌then◌else◌, is_some, or_else, length, Result, ok, err, Error, assertion, undefined,
  guard, or_fail, ◌>>=◌, ◌>>◌,
}
use karma_core.Base.Dict.{Dict, IdSet, lookup, insert, erase, contains, add}
use karma_core.Store.Types.{space_type, index_id, Store, UndoState, UndoDatabase, Database, Session}

module _ {V : Type 0} where
  abbrev pub empty_state : UndoState V
  empty_state = record { old_values = []; old_index_next_ids = []; new_ids = []; removed = [] }

  -- What `on_create`, `on_modify` and `on_remove` do to the state at the back of the stack.
  unfoldable pub note_create : ℕ → UndoState V → UndoState V
  note_create id s = record s {
    old_index_next_ids =
        if contains (index_id id) s.old_index_next_ids
        then s.old_index_next_ids
        else insert (index_id id) id s.old_index_next_ids;
    new_ids = add id s.new_ids;
  }

  unfoldable pub note_modify : ℕ → V → UndoState V → UndoState V
  note_modify id before s =
      if contains id s.new_ids
      then s
      else if contains id s.old_values
      then s
      else record s { old_values = insert id before s.old_values }

  -- `state.removed[id] = std::move(state.old_values[id])` for a value that is there.
  abbrev pub move_to_removed : ℕ → V → UndoState V → UndoState V
  move_to_removed id before s = record s {
    old_values = erase id s.old_values;
    removed = insert id (or_else (lookup id s.old_values) before) s.removed;
  }

  unfoldable pub note_remove : ℕ → V → UndoState V → UndoState V
  note_remove id before s =
      if contains id s.new_ids
      then record s { new_ids = erase id s.new_ids }
      else if contains id s.old_values
      then move_to_removed id before s
      else if contains id s.removed
      then s
      else record s { removed = insert id before s.removed }

  abbrev pub update_back : (UndoState V → UndoState V) → List (UndoState V) → List (UndoState V)
  update_back f [] = f empty_state ∷ []
  update_back f (s ∷ rest) = f s ∷ rest

  -- The frame of the three handlers: `if( _disabled ) return; if( _stack.empty() ) _stack.emplace_back();`
  abbrev pub track : (UndoState V → UndoState V) → UndoDatabase V → UndoDatabase V
  track f u = if u.disabled then u else record u { stack = update_back f u.stack }

  unfoldable pub on_create : ℕ → UndoDatabase V → UndoDatabase V
  on_create id = track (note_create id)

  unfoldable pub on_modify : ℕ → V → UndoDatabase V → UndoDatabase V
  on_modify id before = track (note_modify id before)

  unfoldable pub on_remove : ℕ → V → UndoDatabase V → UndoDatabase V
  on_remove id before = track (note_remove id before)

  abbrev pub update : (ℕ → Option V) → ℕ → Option V → ℕ → Option V
  update f id v k = if k == id then v else f k

  abbrev pub put : ℕ → Option V → Store V → Store V
  put id v st = record st { objects = update st.objects id v }

  -- `index::get`
  unfoldable pub get_object : ℕ → Database V → Result V
  get_object id db = or_fail (db.store.objects id) assertion

  -- `primary_index::create` over `generic_index::create`: the new object takes the next id.
  unfoldable pub create : ℕ → V → Database V → Result (Database V)
  unfolding on_create
  create i v db =
      let id = db.store.next_ids i in
      do
        guard (not (is_some (db.store.objects id))) assertion
        ok (record {
          store = record {
            objects = update db.store.objects id (some v);
            next_ids = λ j. if j == i then id + 1 else db.store.next_ids j;
          };
          undo_db = on_create id db.undo_db;
        })

  -- `primary_index::modify` of the object that `get_object` finds.
  unfoldable pub modify : ℕ → (V → V) → Database V → Result (Database V)
  unfolding get_object on_modify
  modify id m db = do
    before ← get_object id db
    ok (record {
      store = put id (some (m before)) db.store;
      undo_db = on_modify id before db.undo_db;
    })

  -- `primary_index::remove` of the object that `get_object` finds.
  unfoldable pub remove : ℕ → Database V → Result (Database V)
  unfolding get_object on_remove
  remove id db = do
    before ← get_object id db
    ok (record { store = put id none db.store; undo_db = on_remove id before db.undo_db })

  -- `generic_index::insert`, which no undo state records.
  unfoldable pub insert_object : ℕ → V → Database V → Result (Database V)
  insert_object id v db = do
    guard (not (is_some (db.store.objects id))) assertion
    ok (record db { store = put id (some v) db.store })

  abbrev pub set_next_id : ℕ → ℕ → Database V → Database V
  set_next_id i id db = record db {
    store = record {
      objects = db.store.objects;
      next_ids = λ j. if j == i then id else db.store.next_ids j;
    };
  }

  -- The four loops of `undo` and `pop_commit`.
  unfoldable pub restore_values : Dict V → Database V → Result (Database V)
  unfolding modify
  restore_values [] db = ok db
  restore_values ((id, v) ∷ m) db = modify id (λ _. v) db >>= restore_values m

  unfoldable pub remove_new : IdSet → Database V → Result (Database V)
  unfolding remove
  remove_new [] db = ok db
  remove_new ((id, _) ∷ m) db = remove id db >>= remove_new m

  unfoldable pub reset_next_ids : Dict ℕ → Database V → Database V
  reset_next_ids [] db = db
  reset_next_ids ((i, id) ∷ m) db = reset_next_ids m (set_next_id (space_type i) id db)

  unfoldable pub insert_removed : Dict V → Database V → Result (Database V)
  unfolding insert_object
  insert_removed [] db = ok db
  insert_removed ((id, v) ∷ m) db = insert_object id v db >>= insert_removed m

  unfoldable pub rewind : UndoState V → Database V → Result (Database V)
  rewind s db = do
    a ← restore_values s.old_values db
    b ← remove_new s.new_ids a
    insert_removed s.removed (reset_next_ids s.old_index_next_ids b)

  abbrev pub set_disabled : Bool → Database V → Database V
  set_disabled d db = record db { undo_db = record (db.undo_db) { disabled = d } }

  -- `_stack.back()`, with the rest of the stack; the error says what an empty stack leads to.
  abbrev pub back : Error → List (UndoState V) → Result (UndoState V × List (UndoState V))
  back e [] = err e
  back e (s ∷ rest) = ok (s, rest)

  unfoldable pub undo : Database V → Result (Database V)
  undo db = do
    guard (not db.undo_db.disabled) assertion
    guard (ltb 0 db.undo_db.active_sessions) assertion
    (s, rest) ← back undefined db.undo_db.stack
    db' ← rewind s (set_disabled true db)
    ok (record db' {
      undo_db = record (db'.undo_db) {
        stack = rest;
        disabled = false;
        active_sessions = db.undo_db.active_sessions - 1;
      };
    })

  unfoldable pub commit : Database V → Result (Database V)
  commit db = do
    guard (ltb 0 db.undo_db.active_sessions) assertion
    ok (record db {
      undo_db = record (db.undo_db) { active_sessions = db.undo_db.active_sessions - 1 };
    })

  unfoldable pub pop_commit : Database V → Result (Database V)
  pop_commit db = do
    guard (db.undo_db.active_sessions == 0) assertion
    (s, rest) ← back assertion db.undo_db.stack
    db' ← rewind s (set_disabled true db)
    ok (record db' { undo_db = record (db'.undo_db) { stack = rest; disabled = false } })

  -- `_stack.pop_front()`
  abbrev pub pop_front : List (UndoState V) → List (UndoState V)
  pop_front [] = []
  pop_front (s ∷ []) = []
  pop_front (s ∷ t ∷ rest) = s ∷ pop_front (t ∷ rest)

  -- `while( size() > max_size() ) _stack.pop_front();` with fuel.
  unfoldable pub trim : ℕ → ℕ → List (UndoState V) → List (UndoState V)
  trim zero bound stack = stack
  trim (suc fuel) bound stack =
      let rest = trim fuel bound (pop_front stack) in
      if ltb bound (length stack) then rest else stack

  unfoldable pub start_undo_session : Bool → Database V → Database V × Session
  unfolding trim
  start_undo_session force_enable db =
      let u = db.undo_db in
      if u.disabled && not force_enable
      then (db, record { apply_undo = true; disable_on_exit = false })
      else (
        record db {
          undo_db = record u {
            disabled = if force_enable then false else u.disabled;
            stack = empty_state ∷ trim (length u.stack) u.max_size u.stack;
            active_sessions = u.active_sessions + 1;
          };
        },
        record { apply_undo = true; disable_on_exit = u.disabled && force_enable },
      )

  -- The loops of `merge` over the later state, on the earlier one.
  abbrev pub merge_value : ℕ → V → UndoState V → UndoState V
  merge_value id v prev =
      if contains id prev.new_ids
      then prev
      else if contains id prev.old_values
      then prev
      else record prev { old_values = insert id v prev.old_values }

  unfoldable pub merge_old_values : Dict V → UndoState V → UndoState V
  merge_old_values [] prev = prev
  merge_old_values ((id, v) ∷ m) prev = merge_old_values m (merge_value id v prev)

  unfoldable pub merge_new_ids : IdSet → UndoState V → UndoState V
  merge_new_ids [] prev = prev
  merge_new_ids ((id, _) ∷ m) prev = merge_new_ids m (record prev { new_ids = add id prev.new_ids })

  unfoldable pub merge_next_ids : Dict ℕ → UndoState V → UndoState V
  merge_next_ids [] prev = prev
  merge_next_ids ((i, id) ∷ m) prev = merge_next_ids m (
      if contains i prev.old_index_next_ids
      then prev
      else record prev { old_index_next_ids = insert i id prev.old_index_next_ids })

  abbrev pub merge_removal : ℕ → V → UndoState V → UndoState V
  merge_removal id v prev =
      if contains id prev.new_ids
      then record prev { new_ids = erase id prev.new_ids }
      else if contains id prev.old_values
      then move_to_removed id v prev
      else record prev { removed = insert id v prev.removed }

  unfoldable pub merge_removed : Dict V → UndoState V → UndoState V
  merge_removed [] prev = prev
  merge_removed ((id, v) ∷ m) prev = merge_removed m (merge_removal id v prev)

  -- The later state folded into the earlier one.
  unfoldable pub merge_states : UndoState V → UndoState V → UndoState V
  unfolding merge_old_values merge_new_ids merge_next_ids merge_removed
  merge_states prev s = merge_removed s.removed (
      merge_next_ids s.old_index_next_ids
        (merge_new_ids s.new_ids (merge_old_values s.old_values prev)))

  abbrev pub merge_stack : ℕ → List (UndoState V) → Result (List (UndoState V))
  merge_stack active [] = err assertion
  merge_stack active (s ∷ []) = if active == 1 then ok [] else err assertion
  merge_stack active (s ∷ prev ∷ rest) = ok (merge_states prev s ∷ rest)

  unfoldable pub merge : Database V → Result (Database V)
  unfolding merge_states
  merge db = do
    guard (ltb 0 db.undo_db.active_sessions) assertion
    stack ← merge_stack db.undo_db.active_sessions db.undo_db.stack
    ok (record db {
      undo_db = record (db.undo_db) {
        stack = stack;
        active_sessions = db.undo_db.active_sessions - 1;
      };
    })

  -- The methods of `session`.
  unfoldable pub session_undo : Session → Database V → Result (Session × Database V)
  session_undo ses db = do
    db' ← if ses.apply_undo then undo db else ok db
    ok (record ses { apply_undo = false }, db')

  unfoldable pub session_merge : Session → Database V → Result (Session × Database V)
  session_merge ses db = do
    db' ← if ses.apply_undo then merge db else ok db
    ok (record ses { apply_undo = false }, db')

  unfoldable pub session_commit : Session → Database V → Result (Session × Database V)
  session_commit ses db = do db' ← commit db; ok (record ses { apply_undo = false }, db')

  -- `~session()`
  unfoldable pub session_close : Session → Database V → Result (Database V)
  session_close ses db = do
    db' ← if ses.apply_undo then undo db else ok db
    ok (if ses.disable_on_exit then set_disabled true db' else db')
