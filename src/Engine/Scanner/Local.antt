-- ===== src/Engine/Scanner/Local.antt =====
-- `scan_local` of crates/cloud_sync_daemon/src/engine/scanner.rs, over the directories of a file
-- system: `exists` and `read_dir` are the runtime's. A read that fails part of the way ends in `err`.
use cloud_sync_lib.Base.{
  ℕ, zero, suc, Bool, true, false, ◌||◌, not, Option, none, some, List, [], ◌∷◌, if◌then◌else◌,
}
use cloud_sync_lib.Base.Text.{Text, replace, strip_prefix}
use cloud_sync_lib.Base.Dict.{Dict, insert}
use cloud_sync_lib.Storage.Errors.{Result, ok, err}
use cloud_sync_lib.Engine.Filter.{
  FileFilter, is_unsafe_path, is_state_file, is_path_selected, is_size_allowed,
}
use cloud_sync_lib.Engine.Scanner.{ScannedItem, Found}

-- What `modified()` gives when it gives a time.
pub record Metadata : Type 0 where
  pub len : ℕ
  pub modified : Option ℕ
  pub is_dir : Bool
  pub permissions : Option ℕ

pub record DirEntry : Type 0 where
  pub path : Text
  pub metadata : Option Metadata

abbrev time_of : Option ℕ → ℕ
time_of none = 0
time_of (some t) = t

abbrev pub dir_item : Metadata → ScannedItem
dir_item meta = record {
  size = 0;
  modified = time_of meta.modified;
  is_dir = true;
  checksum = none;
  permissions = meta.permissions;
}

abbrev pub file_item : Metadata → ScannedItem
file_item meta = record {
  size = meta.len;
  modified = time_of meta.modified;
  is_dir = false;
  checksum = none;
  permissions = meta.permissions;
}

-- The body of the loop once the metadata is there.
unfoldable pub scan_metadata : FileFilter → Text → Text → Option Metadata → Found → Found
unfolding is_path_selected is_size_allowed insert
scan_metadata filter path rel_path none g = g
scan_metadata filter path rel_path (some meta) g =
    if filter.is_ignored rel_path meta.is_dir
    then g
    else if not (is_path_selected filter rel_path)
    then g
    else if meta.is_dir
    then record { queue = path ∷ g.queue; files = insert rel_path (dir_item meta) g.files }
    else if not (is_size_allowed filter meta.len)
    then g
    else record g { files = insert rel_path (file_item meta) g.files }

abbrev pub scan_relative : FileFilter → DirEntry → Option Text → Found → Found
scan_relative filter entry none g = g
scan_relative filter entry (some rel) g =
    let rel_path = replace 92 b'/' rel in
    if is_unsafe_path rel_path || is_state_file rel_path
    then g
    else scan_metadata filter entry.path rel_path entry.metadata g

-- The body of the loop over the entries of a directory; 92 is the backslash.
unfoldable pub scan_entry : FileFilter → Text → DirEntry → Found → Found
unfolding scan_metadata is_unsafe_path is_state_file strip_prefix replace
scan_entry filter watch_dir entry g =
    scan_relative filter entry (strip_prefix entry.path watch_dir) g

module _ {E : Type 0} (exists : Text → Bool) (read_dir : Text → Result E (List (Result E DirEntry)))
    (filter : FileFilter) (watch_dir : Text) where
  unfoldable pub scan_entries : List (Result E DirEntry) → Found → Result E Found
  unfolding scan_entry
  scan_entries [] g = ok g
  scan_entries (err e ∷ rest) g = err e
  scan_entries (ok entry ∷ rest) g = scan_entries rest (scan_entry filter watch_dir entry g)

  unfoldable pub after_read_dir : Result E (List (Result E DirEntry)) → Found → Result E Found
  unfolding scan_entries
  after_read_dir (ok entries) g = scan_entries entries g
  after_read_dir (err e) g = err e

  -- `none`: the fuel ran out.
  unfoldable pub scan_dirs : ℕ → List Text → Dict ScannedItem → Option (Result E (Dict ScannedItem))
  unfolding after_read_dir
  scan_dirs zero queue files = none
  scan_dirs (suc fuel) [] files = some (ok files)
  scan_dirs (suc fuel) (dir ∷ rest) files =
      elim (after_read_dir (read_dir dir) (record { queue = rest; files = files })) [
        | ok g ↦ scan_dirs fuel g.queue g.files
        | err e ↦ some (err e)
      ]

  unfoldable pub scan_local : ℕ → Option (Result E (Dict ScannedItem))
  unfolding scan_dirs
  scan_local fuel = if exists watch_dir then scan_dirs fuel (watch_dir ∷ []) [] else some (ok [])
