-- ===== src/Layers/RateLimit.antt =====
-- crates/cloud_sync_lib/src/layers/rate_limit.rs: what a limiter does to the world for a number of
-- bytes, its wait included, is a function; `file_size` is the length of a local file, if its metadata
-- can be read.
use cloud_sync_lib.Base.{ℕ, Option, none, some}
use cloud_sync_lib.Base.Text.{Text}
use cloud_sync_lib.Storage.Errors.{Foreign, StorageError, Result, ok, err}
use cloud_sync_lib.Providers.Backend.{Backend}

abbrev pub consumed : {W : Type 0} → Option (ℕ → W → W) → Option ℕ → W → W
consumed none size w = w
consumed (some limiter) none w = w
consumed (some limiter) (some size) w = limiter size w

module _ {F : Foreign} {W : Type 0} (file_size : Text → W → Option ℕ) where
  abbrev after_download :
      Option (ℕ → W → W)
      → Text
      → Result (StorageError F) (Unit {0}) × W
      → Result (StorageError F) (Unit {0}) × W
  after_download limiter l (err e, w) = (err e, w)
  after_download limiter l (ok u, w) = (ok tt, consumed limiter (file_size l w) w)

  unfoldable pub rate_limit_backend :
      {Session : Type 0}
      → Option (ℕ → W → W)
      → Option (ℕ → W → W)
      → Backend F W Session
      → Backend F W Session
  rate_limit_backend upload_limiter download_limiter inner = record {
    capabilities = inner.capabilities;
    upload = λ l r w. inner.upload l r (consumed upload_limiter (file_size l w) w);
    download = λ r l w. after_download download_limiter l (inner.download r l w);
    delete = inner.delete;
    list = inner.list;
    create_folder = inner.create_folder;
    rename = inner.rename;
    copy = inner.copy;
    start_resumable_upload = inner.start_resumable_upload;
    get_latest_cursor = inner.get_latest_cursor;
    fetch_changes = inner.fetch_changes;
    compute_local_checksum = inner.compute_local_checksum;
    is_simulated = inner.is_simulated;
    simulation_reason = inner.simulation_reason;
  }
