-- ===== src/Daemon/Backends/Examples.antt =====
-- A configuration of two providers, one of them switched off.
use cloud_sync_lib.Base.{ℕ, ◌≡◌, false, Option, none, some}
use cloud_sync_lib.Base.Text.{Text, codes}
use cloud_sync_lib.Storage.Policy.{two_way}
use cloud_sync_lib.Daemon.Backends.{
  CommonProviderSettings, BackendCredentials, AppConfig, build_backends,
}
use cloud_sync_lib.Daemon.Backends.Enabled.{
  all_configured, active_if_enabled, build_backends_enabled,
}

abbrev settings : CommonProviderSettings
settings = record {
  destination_folder = none;
  enabled = none;
  sync_mode = some two_way;
  encryption_password = none;
  max_upload_rate = none;
  max_download_rate = none;
  selective_sync = none;
}

abbrev config : AppConfig (Unit {0})
config = record {
  google_credentials = some (record { own = tt; common = settings });
  dropbox_credentials =
      some (record { own = tt; common = record settings { enabled = some false } });
  onedrive_credentials = none;
  webdav_credentials = none;
  s3_credentials = none;
  sftp_credentials = none;
  nextcloud_credentials = none;
  box_credentials = none;
  mega_credentials = none;
  azure_blob_credentials = none;
  gcs_credentials = none;
  b2_credentials = none;
  pcloud_credentials = none;
  ipfs_credentials = none;
  google_drive_root = codes "g";
  dropbox_root = codes "d";
  onedrive_root = codes "o";
  webdav_root = codes "w";
  s3_root = codes "s";
  sftp_root = codes "f";
  nextcloud_root = codes "n";
  box_root = none;
  mega_root = none;
  azure_blob_root = none;
  gcs_root = none;
  b2_root = none;
  pcloud_root = none;
  ipfs_root = none;
}

abbrev wrap : BackendCredentials (Unit {0}) → Text → Option ℕ → Option ℕ → Text
wrap creds root up down = root

build_backends_enabled_example :
    build_backends wrap none none config ≡ active_if_enabled wrap none none (all_configured config)
build_backends_enabled_example = build_backends_enabled wrap none none config
