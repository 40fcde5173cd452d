-- ===== src/Engine/Scanner.antt =====
-- crates/cloud_sync_daemon/src/engine/scanner.rs: what a scan yields for each relative path, and the
-- scan of the remote side over a backend's `list`. The vector of directories to visit is a list
-- with its end in front.
pub mod Kept
pub mod Remote
pub mod Local
pub mod LocalTotal
pub mod Examples
use cloud_sync_lib.Base.{
  ℕ, zero, suc, Bool, true, false, ◌||◌, not, Option, none, some, List, [], ◌∷◌, if◌then◌else◌,
}
use cloud_sync_lib.Base.Text.{Text}
use cloud_sync_lib.Base.Dict.{Dict, insert}
use cloud_sync_lib.Storage.Errors.{Foreign, StorageError, Result, ok, err, is_not_found}
use cloud_sync_lib.Engine.Filter.{
  FileFilter, is_unsafe_path, is_state_file, is_path_selected, is_size_allowed,
}

pub record ScannedItem : Type 0 where
  pub size : ℕ
  pub modified : ℕ
  pub is_dir : Bool
  pub checksum : Option Text
  pub permissions : Option ℕ

-- `StorageItem` of crates/cloud_sync_core/src/traits.rs.
pub record StorageItem : Type 0 where
  pub path : Text
  pub size : ℕ
  pub modified : ℕ
  pub is_dir : Bool
  pub checksum : Option Text
  pub permissions : Option ℕ

pub record Found : Type 0 where
  pub queue : List Text
  pub files : Dict ScannedItem

-- The three tests that pass over an item, whatever it is.
unfoldable pub is_passed_over : FileFilter → StorageItem → Bool
unfolding is_unsafe_path is_state_file is_path_selected
is_passed_over filter item =
    is_unsafe_path item.path
    || is_state_file item.path
    || filter.is_ignored item.path item.is_dir
    || not (is_path_selected filter item.path)

abbrev pub dir_of : StorageItem → ScannedItem
dir_of item = record {
  size = 0;
  modified = item.modified;
  is_dir = true;
  checksum = none;
  permissions = item.permissions;
}

abbrev pub file_of : StorageItem → ScannedItem
file_of item = record {
  size = item.size;
  modified = item.modified;
  is_dir = false;
  checksum = item.checksum;
  permissions = item.permissions;
}

-- The body of the loop over the items of a directory.
unfoldable pub scan_item : FileFilter → StorageItem → Found → Found
unfolding is_passed_over is_size_allowed insert
scan_item filter item g =
    if is_passed_over filter item
    then g
    else if item.is_dir
    then record { queue = item.path ∷ g.queue; files = insert item.path (dir_of item) g.files }
    else if not (is_size_allowed filter item.size)
    then g
    else record g { files = insert item.path (file_of item) g.files }

unfoldable pub scan_items : FileFilter → List StorageItem → Found → Found
unfolding scan_item
scan_items filter [] g = g
scan_items filter (item ∷ rest) g = scan_items filter rest (scan_item filter item g)

module _ {F : Foreign} (list : Text → Result (StorageError F) (List StorageItem)) where
  -- The `match` on a listing: a directory that is gone is passed over.
  unfoldable pub after_list :
      FileFilter
      → Result (StorageError F) (List StorageItem)
      → Found
      → Result (StorageError F) Found
  unfolding scan_items is_not_found
  after_list filter (ok items) g = ok (scan_items filter items g)
  after_list filter (err e) g = if is_not_found e then ok g else err e

  -- `none`: the fuel ran out.
  unfoldable pub scan_loop :
      ℕ
      → FileFilter
      → List Text
      → Dict ScannedItem
      → Option (Result (StorageError F) (Dict ScannedItem))
  unfolding after_list
  scan_loop zero filter queue files = none
  scan_loop (suc fuel) filter [] files = some (ok files)
  scan_loop (suc fuel) filter (current ∷ rest) files =
      elim (after_list filter (list current) (record { queue = rest; files = files })) [
        | ok g ↦ scan_loop fuel filter g.queue g.files
        | err e ↦ some (err e)
      ]

  unfoldable pub scan_remote : ℕ → FileFilter → Option (Result (StorageError F) (Dict ScannedItem))
  unfolding scan_loop
  scan_remote fuel filter = scan_loop fuel filter ([] ∷ []) []
