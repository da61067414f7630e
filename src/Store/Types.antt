-- ===== src/Store/Types.antt =====
-- The state of libraries/db: object ids, the indexes, and the undo history
-- (object_id.hpp, index.hpp, undo_database.hpp).
use karma_core.Base.{ℕ, ◌*◌, ◌/◌, ◌^◌, Bool, Option, List}
use karma_core.Base.Dict.{Dict, IdSet}

-- `object_id_type::number` is one word: the space in the top 8 bits, the type in the next 8 and the
-- instance in the other 48.
abbrev pub space_type : ℕ → ℕ
space_type number = number / 2 ^ 48

-- `object_id_type( id.space(), id.type(), 0 )`
abbrev pub index_id : ℕ → ℕ
index_id number = space_type number * 2 ^ 48

-- All primary indexes together: the object that has an id, and each index's `_next_id`, by the
-- `space_type` of the index.
pub record Store (V : Type 0) : Type 0 where
  pub objects : ℕ → Option V
  pub next_ids : ℕ → ℕ

-- `undo_state`
pub record UndoState (V : Type 0) : Type 0 where
  pub old_values : Dict V
  pub old_index_next_ids : Dict ℕ
  pub new_ids : IdSet
  pub removed : Dict V

-- `undo_database`; the head of `stack` is the back of the deque.
pub record UndoDatabase (V : Type 0) : Type 0 where
  pub active_sessions : ℕ
  pub disabled : Bool
  pub stack : List (UndoState V)
  pub max_size : ℕ

-- `object_database` with the undo database that it owns.
pub record Database (V : Type 0) : Type 0 where
  pub store : Store V
  pub undo_db : UndoDatabase V

-- `undo_database::session`
pub record Session : Type 0 where
  pub apply_undo : Bool
  pub disable_on_exit : Bool
