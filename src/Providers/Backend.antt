-- ===== src/Providers/Backend.antt =====
-- The operations of `StorageBackend` in crates/cloud_sync_core/src/traits.rs, as functions on a state
-- of the world. A change feed and an upload session are of types of their own.
use cloud_sync_lib.Base.{ℕ, Bool, Option, List}
use cloud_sync_lib.Base.Text.{Text}
use cloud_sync_lib.Storage.Capabilities.{StorageCapabilities}
use cloud_sync_lib.Storage.Errors.{Foreign, StorageError, Result}
use cloud_sync_lib.Engine.Scanner.{StorageItem}

pub record RemoteChange : Type 0 where
  pub path : Text
  pub is_deleted : Bool
  pub item : Option StorageItem

module _ (F : Foreign) (W : Type 0) where
  abbrev pub Call : Type 0 → Type 0
  Call A = W → Result (StorageError F) A × W

  pub record Backend (Session : Type 0) : Type 0 where
    pub capabilities : StorageCapabilities
    pub upload : Text → Text → Call (Unit {0})
    pub download : Text → Text → Call (Unit {0})
    pub delete : Text → Call (Unit {0})
    pub list : Text → Call (List StorageItem)
    pub create_folder : Text → Call (Unit {0})
    pub rename : Text → Text → Call (Unit {0})
    pub copy : Text → Text → Call (Unit {0})
    pub start_resumable_upload : Text → Text → ℕ → Call Session
    pub get_latest_cursor : Call (Option Text)
    pub fetch_changes : Text → Call (Option (List RemoteChange × Text))
    pub compute_local_checksum : Text → Call (Option Text)
    pub is_simulated : W → Bool
    pub simulation_reason : W → Option Text
