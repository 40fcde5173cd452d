-- ===== src/Engine/Versioning.antt =====
-- crates/cloud_sync_daemon/src/engine/versioning.rs: the trash directory.
pub mod Cleanup
use cloud_sync_lib.Base.{ℕ, Bool, not, ◌||◌, ◌∷◌, ◌++◌, if◌then◌else◌, unwrap_or}
use cloud_sync_lib.Base.Text.{Text, codes, file_name, path_join}
use cloud_sync_lib.Storage.Errors.{Foreign}
use cloud_sync_lib.Engine.Host.{Host}

pub record VersioningConfig : Type 0 where
  pub enabled : Bool
  pub trash_dir : Text
  pub retention_days : ℕ
  pub max_versions_per_file : ℕ

-- The name of the archived copy.
unfoldable pub trash_destination : VersioningConfig → Text → Text → Text
unfolding path_join file_name
trash_destination c timestamp source =
    path_join c.trash_dir (timestamp ++ b'_' ∷ unwrap_or (file_name source) (codes "unnamed_file"))

module _ {F : Foreign} (h : Host F) where
  -- `Ok(None)`, `Ok(Some(dest))` or the error of the file system.
  pub data Archived : Type 0 where
    skipped failed : Archived
    archived : Text → Archived

  abbrev copy_to_trash : VersioningConfig → Text → h.World → Archived × h.World
  copy_to_trash c source w =
      let dest = trash_destination c (h.timestamp w) source in
      let (done, w') = h.copy_file source dest w in (if done then archived dest else failed, w')

  unfoldable pub archive_file : VersioningConfig → Text → h.World → Archived × h.World
  unfolding trash_destination
  archive_file c source w =
      if not c.enabled || not (h.exists source w)
      then (skipped, w)
      else (let (made, w') = h.create_dir_all c.trash_dir w in
          if made then copy_to_trash c source w' else (failed, w'))
