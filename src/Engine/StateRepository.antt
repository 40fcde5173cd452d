-- ===== src/Engine/StateRepository.antt =====
-- crates/cloud_sync_daemon/src/engine/state_repository.rs: where the catalog of a backend is kept, and
-- how old catalogs come there. The file system is the one of `Store`, without input and output errors.
pub mod Migration
pub mod Examples
use cloud_sync_lib.Base.{Option, none, some, List, [], ◌∷◌, ◌++◌, is_some, if◌then◌else◌}
use cloud_sync_lib.Base.Text.{Text, codes, starts_with, path_join}
use cloud_sync_lib.Base.Dict.{get, insert, remove}
use cloud_sync_lib.Storage.Errors.{Result, ok, err}
use cloud_sync_lib.Storage.State.{SyncState, default_state}
use cloud_sync_lib.Store.{Codec, Names, Files, load, save, move_to}

abbrev state_or_default : Result Text SyncState → SyncState
state_or_default (ok s) = s
state_or_default (err e) = default_state

-- `SyncStateRepository::load`: an error is an empty catalog.
unfoldable pub load_or_default : Codec → Names → Files → SyncState
unfolding load
load_or_default k names files = state_or_default (load k names files)

-- `if old.exists()`: the file is moved, or removed if there is one at its new place.
unfoldable pub migrate : Text → Text → Files → Files
unfolding get insert remove
migrate old new files =
    if is_some (get old files)
    then if is_some (get new files) then remove old files else move_to old new (get old files) files
    else files

abbrev pub state_filename : Text → Text
state_filename safe_name = codes ".sync_state_" ++ safe_name ++ codes ".bin"

abbrev pub bak_filename : Text → Text
bak_filename safe_name = codes ".sync_state_" ++ safe_name ++ codes ".bak"

-- The path of the catalog, and the files after the migration.
unfoldable pub resolve_state_file_path : Text → Text → Text → Files → Text × Files
unfolding migrate path_join
resolve_state_file_path state_dir watch_dir safe_name files = (
  path_join state_dir (state_filename safe_name),
  migrate (path_join watch_dir (bak_filename safe_name))
      (path_join state_dir (bak_filename safe_name))
      (migrate (path_join watch_dir (state_filename safe_name))
        (path_join state_dir (state_filename safe_name)) files),
)

-- The entries of the watched directory by their names.
unfoldable pub migrate_legacy_state_files : Text → Text → List Text → Files → Files
unfolding migrate path_join starts_with
migrate_legacy_state_files watch_dir state_dir [] files = files
migrate_legacy_state_files watch_dir state_dir (name ∷ names) files =
    migrate_legacy_state_files watch_dir state_dir names (
      if starts_with name (codes ".sync_state")
      then migrate (path_join watch_dir name) (path_join state_dir name) files
      else files)
