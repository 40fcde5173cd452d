-- ===== src/Engine/Host.antt =====
-- What the executor calls: a storage backend and the local file system, over one state of the
-- world. `StorageBackend` and `ResumableUploadSession` are the traits of
-- crates/cloud_sync_core/src/traits.rs; the file system is the one of the runtime.
use cloud_sync_lib.Base.{ℕ, Bool, Option}
use cloud_sync_lib.Base.Text.{Text}
use cloud_sync_lib.Storage.Capabilities.{StorageCapabilities}
use cloud_sync_lib.Storage.Errors.{Foreign, StorageError, Result}

pub record Host (F : Foreign) : Type 1 where
  pub World : Type 0
  pub Session : Type 0
  pub capabilities : StorageCapabilities
  -- local path, remote path
  pub upload : Text → Text → World → Result (StorageError F) (Unit {0}) × World
  -- remote path, local path
  pub download : Text → Text → World → Result (StorageError F) (Unit {0}) × World
  pub delete : Text → World → Result (StorageError F) (Unit {0}) × World
  pub rename : Text → Text → World → Result (StorageError F) (Unit {0}) × World
  pub copy : Text → Text → World → Result (StorageError F) (Unit {0}) × World
  pub start_resumable_upload : Text → Text → ℕ → World → Result (StorageError F) Session × World
  pub is_complete : Session → Bool
  pub upload_next_chunk : Session → World → Result (StorageError F) Session × World
  pub finish : Session → World → Result (StorageError F) (Option Text) × World
  -- the file system: `true` is success
  pub exists : Text → World → Bool
  pub is_dir : Text → World → Bool
  pub create_dir_all : Text → World → Bool × World
  pub copy_file : Text → Text → World → Bool × World
  pub remove_file : Text → World → Bool × World
  pub remove_dir_all : Text → World → Bool × World
  pub set_permissions : Text → ℕ → World → Bool × World
  -- `Utc::now().format("%Y%m%d_%H%M%S")`
  pub timestamp : World → Text
