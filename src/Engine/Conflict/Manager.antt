-- ===== src/Engine/Conflict/Manager.antt =====
-- `ConflictManager` of crates/cloud_sync_daemon/src/engine/conflict.rs.
use cloud_sync_lib.Base.{ℕ, Option, none, some, [], ◌∷◌, if◌then◌else◌}
use cloud_sync_lib.Base.Text.{Text, text_eq}
use cloud_sync_lib.Base.Dict.{Dict, get, insert, remove}

pub data ConflictType : Type 0 where
  concurrent_modification local_modified_remote_deleted : ConflictType
  remote_modified_local_deleted concurrent_addition : ConflictType

pub record ConflictRecord : Type 0 where
  pub id : Text
  pub rel_path : Text
  pub provider : Text
  pub conflict_type : ConflictType
  pub local_size : Option ℕ
  pub local_mtime : Option ℕ
  pub remote_size : Option ℕ
  pub remote_mtime : Option ℕ
  pub detected_at : ℕ

unfoldable pub record_conflict : ConflictRecord → Dict ConflictRecord → Dict ConflictRecord
unfolding insert
record_conflict r m = insert r.rel_path r m

-- The first entry, in the order of iteration, whose record has the id.
unfoldable pub find_by_id : Text → Dict ConflictRecord → Option (Text × ConflictRecord)
unfolding text_eq
find_by_id i [] = none
find_by_id i ((k, r) ∷ m) = if text_eq r.id i then some (k, r) else find_by_id i m

abbrev record_of : Option (Text × ConflictRecord) → Option ConflictRecord
record_of none = none
record_of (some (k, r)) = some r

unfoldable pub get_conflict : Text → Dict ConflictRecord → Option ConflictRecord
unfolding get find_by_id
get_conflict i m = elim (get i m) [ some r ↦ some r | none ↦ record_of (find_by_id i m) ]

abbrev remove_found :
    Option (Text × ConflictRecord)
    → Dict ConflictRecord
    → Option ConflictRecord × Dict ConflictRecord
remove_found none m = (none, m)
remove_found (some (k, r)) m = (get k m, remove k m)

unfoldable pub remove_conflict :
    Text → Dict ConflictRecord → Option ConflictRecord × Dict ConflictRecord
unfolding get remove find_by_id
remove_conflict i m = elim (get i m) [
  | some r ↦ (some r, remove i m)
  | none ↦ remove_found (find_by_id i m) m
]
