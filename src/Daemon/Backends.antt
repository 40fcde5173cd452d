-- ===== src/Daemon/Backends.antt =====
-- The backends that a configuration asks for: `ProviderConfig` and `BackendCredentials` of
-- crates/cloud_sync_lib/src/providers/mod.rs, `AppConfig` of crates/cloud_sync_daemon/src/config.rs and
-- `build_backends` of crates/cloud_sync_daemon/src/lib.rs, with every provider compiled in. The
-- credentials of a single provider, its backend and the limiters are of types of their own.
pub mod Enabled
pub mod Examples
use cloud_sync_lib.Base.{
  ℕ, Bool, true, Option, none, some, List, [], ◌∷◌, ◌++◌, if◌then◌else◌, unwrap_or, arith,
}
use cloud_sync_lib.Base.Text.{Text, codes}
use cloud_sync_lib.Storage.Policy.{SyncMode, two_way, one_way, one_way_no_deletions, SyncPolicy}

pub record CommonProviderSettings : Type 0 where
  pub destination_folder : Option Text
  pub enabled : Option Bool
  pub sync_mode : Option SyncMode
  pub encryption_password : Option Text
  pub max_upload_rate : Option ℕ
  pub max_download_rate : Option ℕ
  pub selective_sync : Option (List Text)

-- The credentials of a provider: the settings that all have, and its own.
pub record Credentials (S : Type 0) : Type 0 where
  pub own : S
  pub common : CommonProviderSettings

unfoldable pub is_enabled : {S : Type 0} → Credentials S → Bool
is_enabled c = unwrap_or c.common.enabled true

pub data BackendCredentials (S : Type 0) : Type 0 where
  google_drive : Credentials S → BackendCredentials S
  dropbox : Credentials S → BackendCredentials S
  one_drive : Credentials S → BackendCredentials S
  web_dav : Credentials S → BackendCredentials S
  s3 : Credentials S → BackendCredentials S
  sftp : Credentials S → BackendCredentials S
  nextcloud : Credentials S → BackendCredentials S
  box : Credentials S → BackendCredentials S
  mega : Credentials S → BackendCredentials S
  azure_blob : Credentials S → BackendCredentials S
  gcs : Credentials S → BackendCredentials S
  b2 : Credentials S → BackendCredentials S
  p_cloud : Credentials S → BackendCredentials S
  ipfs : Credentials S → BackendCredentials S

unfoldable pub common_settings : {S : Type 0} → BackendCredentials S → CommonProviderSettings
common_settings (google_drive c) = c.common
common_settings (dropbox c) = c.common
common_settings (one_drive c) = c.common
common_settings (web_dav c) = c.common
common_settings (s3 c) = c.common
common_settings (sftp c) = c.common
common_settings (nextcloud c) = c.common
common_settings (box c) = c.common
common_settings (mega c) = c.common
common_settings (azure_blob c) = c.common
common_settings (gcs c) = c.common
common_settings (b2 c) = c.common
common_settings (p_cloud c) = c.common
common_settings (ipfs c) = c.common

unfoldable pub sync_mode : {S : Type 0} → BackendCredentials S → SyncMode
unfolding common_settings
sync_mode c = unwrap_or (common_settings c).sync_mode one_way

unfoldable pub selective_sync : {S : Type 0} → BackendCredentials S → Option (List Text)
unfolding common_settings
selective_sync c = (common_settings c).selective_sync

-- The providers of the configuration, and the directories of their simulations.
pub record AppConfig (S : Type 0) : Type 0 where
  pub google_credentials : Option (Credentials S)
  pub dropbox_credentials : Option (Credentials S)
  pub onedrive_credentials : Option (Credentials S)
  pub webdav_credentials : Option (Credentials S)
  pub s3_credentials : Option (Credentials S)
  pub sftp_credentials : Option (Credentials S)
  pub nextcloud_credentials : Option (Credentials S)
  pub box_credentials : Option (Credentials S)
  pub mega_credentials : Option (Credentials S)
  pub azure_blob_credentials : Option (Credentials S)
  pub gcs_credentials : Option (Credentials S)
  pub b2_credentials : Option (Credentials S)
  pub pcloud_credentials : Option (Credentials S)
  pub ipfs_credentials : Option (Credentials S)
  pub google_drive_root : Text
  pub dropbox_root : Text
  pub onedrive_root : Text
  pub webdav_root : Text
  pub s3_root : Text
  pub sftp_root : Text
  pub nextcloud_root : Text
  pub box_root : Option Text
  pub mega_root : Option Text
  pub azure_blob_root : Option Text
  pub gcs_root : Option Text
  pub b2_root : Option Text
  pub pcloud_root : Option Text
  pub ipfs_root : Option Text

pub record BuiltBackend (B : Type 0) : Type 0 where
  pub backend : B
  pub policy : SyncPolicy
  pub selective_sync : Option (List Text)

-- A provider that is not configured counts as enabled.
unfoldable pub is_provider_enabled : {S : Type 0} → Option (Credentials S) → Bool
unfolding is_enabled
is_provider_enabled none = true
is_provider_enabled (some c) = is_enabled c

module _ {S L B : Type 0} (build_wrapped : BackendCredentials S → Text → Option L → Option L → B)
    (upload_limiter download_limiter : Option L) where
  abbrev pub active_of : BackendCredentials S → Text → BuiltBackend B
  active_of creds sim_root = record {
    backend = build_wrapped creds sim_root upload_limiter download_limiter;
    policy = record { mode = sync_mode creds };
    selective_sync = selective_sync creds;
  }

  unfoldable pub try_add_backend :
      List (BuiltBackend B) → Option (BackendCredentials S) → Text → List (BuiltBackend B)
  try_add_backend backends none sim_root = backends
  try_add_backend backends (some creds) sim_root = backends ++ active_of creds sim_root ∷ []

  abbrev pub add_enabled :
      (Credentials S → BackendCredentials S)
      → Option (Credentials S)
      → Text
      → List (BuiltBackend B)
      → List (BuiltBackend B)
  add_enabled kind creds sim_root backends =
      if is_provider_enabled creds
      then try_add_backend backends (elim creds [ none ↦ none | some c ↦ some (kind c) ]) sim_root
      else backends

  unfoldable pub build_backends : AppConfig S → List (BuiltBackend B)
  build_backends config =
      add_enabled ipfs config.ipfs_credentials
        (unwrap_or config.ipfs_root (codes "./cloud_simulation/ipfs"))
        (add_enabled p_cloud config.pcloud_credentials
          (unwrap_or config.pcloud_root (codes "./cloud_simulation/pcloud"))
          (add_enabled b2 config.b2_credentials
            (unwrap_or config.b2_root (codes "./cloud_simulation/b2"))
            (add_enabled gcs config.gcs_credentials
              (unwrap_or config.gcs_root (codes "./cloud_simulation/gcs"))
              (add_enabled azure_blob config.azure_blob_credentials
                (unwrap_or config.azure_blob_root (codes "./cloud_simulation/azure_blob"))
                (add_enabled mega config.mega_credentials
                  (unwrap_or config.mega_root (codes "./cloud_simulation/mega"))
                  (add_enabled box config.box_credentials
                    (unwrap_or config.box_root (codes "./cloud_simulation/box"))
                    (add_enabled nextcloud config.nextcloud_credentials config.nextcloud_root (
                      add_enabled sftp config.sftp_credentials config.sftp_root (
                        add_enabled s3 config.s3_credentials config.s3_root (
                          add_enabled web_dav config.webdav_credentials config.webdav_root (
                            add_enabled one_drive config.onedrive_credentials config.onedrive_root (
                              add_enabled dropbox config.dropbox_credentials config.dropbox_root (
                                add_enabled google_drive config.google_credentials
                                  config.google_drive_root [])))))))))))))
