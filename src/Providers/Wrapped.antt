-- ===== src/Providers/Wrapped.antt =====
-- How a configured provider is wrapped: `build_wrapped` of
-- crates/cloud_sync_lib/src/providers/mod.rs, with `RateLimitingBackend` of
-- crates/cloud_sync_lib/src/rate_limit.rs and `EncryptedBackend` of
-- crates/cloud_sync_lib/src/providers/encryption.rs. What a limiter does to the world after a transfer
-- of a local file is a function of the path; the staging of ciphertexts is `Staging`.
pub mod Moves
pub mod Examples
use cloud_sync_lib.Base.{Option, none, some, ℕ}
use cloud_sync_lib.Base.Text.{Text, codes}
use cloud_sync_lib.Storage.Capabilities.{no_capabilities}
use cloud_sync_lib.Storage.Errors.{Foreign, StorageError, Result, ok, err, conflict}
use cloud_sync_lib.Providers.Backend.{Backend, Call}
use cloud_sync_lib.Providers.Fallback.{Routed, fallback_backend}
use cloud_sync_lib.Providers.Encryption.{list_encrypted}

-- The defaults of the trait.
abbrev pub copy_unsupported : {F : Foreign} {W : Type 0} → Text → Text → Call F W (Unit {0})
copy_unsupported from to w = (err (conflict (codes "Copy not supported")), w)

abbrev pub resumable_unsupported :
    {F : Foreign} {W Session : Type 0} → Text → Text → ℕ → Call F W Session
resumable_unsupported l r n w = (err (conflict (codes "Resumable upload not supported")), w)

abbrev no_checksum : {F : Foreign} {W : Type 0} → Text → Call F W (Option Text)
no_checksum l w = (ok none, w)

abbrev throttle : {W : Type 0} → Option (Text → W → W) → Text → W → W
throttle none l w = w
throttle (some pause) l w = pause l w

abbrev throttled :
    {F : Foreign} {W : Type 0}
    → Option (Text → W → W)
    → Text
    → Result (StorageError F) (Unit {0}) × W
    → Result (StorageError F) (Unit {0}) × W
throttled limiter l (ok u, w) = (ok u, throttle limiter l w)
throttled limiter l (err e, w) = (err e, w)

-- The local side of `EncryptedBackend`: the vault of a local file in a new temporary file, an empty
-- temporary file, and the reading of a vault into a local file, which removes the temporary one.
pub record Staging (F : Foreign) (W : Type 0) : Type 0 where
  pub seal_to_temp : Text → Call F W Text
  pub new_temp : Call F W Text
  pub open_vault : Text → Text → Call F W (Unit {0})
  pub remove_file : Text → W → W

module _ {F : Foreign} {W Session : Type 0} where
  -- The operations that `RateLimitingBackend` has; the others are the trait's.
  unfoldable pub rate_limiting :
      Backend F W Session → Option (Text → W → W) → Option (Text → W → W) → Backend F W Session
  rate_limiting inner upload_limiter download_limiter = record {
    capabilities = no_capabilities;
    upload = λ l r w. throttled upload_limiter l (inner.upload l r w);
    download = λ r l w. throttled download_limiter l (inner.download r l w);
    delete = inner.delete;
    list = inner.list;
    create_folder = inner.create_folder;
    rename = inner.rename;
    copy = copy_unsupported;
    start_resumable_upload = resumable_unsupported;
    get_latest_cursor = inner.get_latest_cursor;
    fetch_changes = inner.fetch_changes;
    compute_local_checksum = inner.compute_local_checksum;
    is_simulated = inner.is_simulated;
    simulation_reason = inner.simulation_reason;
  }

  module _ (staging : Staging F W) (inner : Backend F W Session) where
    abbrev upload_temp :
        Text → Result (StorageError F) Text → W → Result (StorageError F) (Unit {0}) × W
    upload_temp r (err e) w = (err e, w)
    upload_temp r (ok temp) w =
        let (res, w') = inner.upload temp r w in (res, staging.remove_file temp w')

    abbrev open_downloaded :
        Text
        → Text
        → Result (StorageError F) (Unit {0})
        → W
        → Result (StorageError F) (Unit {0}) × W
    open_downloaded l temp (err e) w = (err e, w)
    open_downloaded l temp (ok u) w = staging.open_vault temp l w

    abbrev download_temp :
        Text → Text → Result (StorageError F) Text → W → Result (StorageError F) (Unit {0}) × W
    download_temp r l (err e) w = (err e, w)
    download_temp r l (ok temp) w =
        let (res, w') = inner.download r temp w in open_downloaded l temp res w'

    unfoldable pub encrypted_backend : Backend F W Session
    unfolding list_encrypted
    encrypted_backend = record {
      capabilities = inner.capabilities;
      upload = λ l r w. let (temp, w') = staging.seal_to_temp l w in upload_temp r temp w';
      download = λ r l w. let (temp, w') = staging.new_temp w in download_temp r l temp w';
      delete = inner.delete;
      list = list_encrypted inner;
      create_folder = inner.create_folder;
      rename = inner.rename;
      copy = inner.copy;
      start_resumable_upload = resumable_unsupported;
      get_latest_cursor = inner.get_latest_cursor;
      fetch_changes = inner.fetch_changes;
      compute_local_checksum = no_checksum;
      is_simulated = inner.is_simulated;
      simulation_reason = inner.simulation_reason;
    }

  abbrev with_password : Option (Staging F W) → Backend F W Session → Backend F W Session
  with_password none limited = limited
  with_password (some staging) limited = encrypted_backend staging limited

-- The simulation behind the provider, the limiters around both, and the encryption, if there is a
-- password, outside.
unfoldable pub build_wrapped :
    {F : Foreign} {W Session : Type 0}
    → (StorageError F → Text)
    → Backend F W Session
    → Backend F W Session
    → Option (Text → Routed W → Routed W)
    → Option (Text → Routed W → Routed W)
    → Option (Staging F (Routed W))
    → Backend F (Routed W) Session
unfolding fallback_backend rate_limiting encrypted_backend
build_wrapped show inner local_sim upload_limiter download_limiter password =
    with_password password
      (rate_limiting (fallback_backend show (some inner) local_sim) upload_limiter download_limiter)
