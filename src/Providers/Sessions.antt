-- ===== src/Providers/Sessions.antt =====
-- The chunked uploads of crates/cloud_sync_lib/src/providers/utils.rs. Opening, seeking and one read
-- of the local file is `read`, a request with its answer is `put`; the waits of a rate limiter have
-- no counterpart. A run yields the requests that it sent, in order.
pub mod Parts
pub mod Covers
pub mod Short
pub mod Dropbox
pub mod DropboxNames
pub mod DropboxCovers
pub mod Examples
use cloud_sync_lib.Base.{
  ℕ, zero, suc, ◌+◌, ◌-◌, ◌*◌, ◌%◌, ◌^◌, min, Bool, true, false, ◌||◌, Option, none, some, List, [],
  ◌∷◌, ◌++◌, ◌==◌, ltb, if◌then◌else◌,
}
use cloud_sync_lib.Base.Lists.{length}
use cloud_sync_lib.Base.Text.{Text, codes}
use cloud_sync_lib.Storage.Errors.{Foreign, StorageError, Result, ok, err}
use cloud_sync_lib.Providers.Translate.{Response, is_success, translate_http_error}

-- A `PUT` with its `Content-Range: bytes first-last/total`.
pub record Request : Type 0 where
  pub first : ℕ
  pub last : ℕ
  pub total : ℕ
  pub body : Text

-- `offset + chunk_data.len() as u64 - 1` on a `u64`
abbrev pub end_byte : ℕ → Text → ℕ
end_byte offset chunk = (offset + length chunk + (2 ^ 64 - 1)) % 2 ^ 64

abbrev pub bodies : List Request → Text
bodies [] = []
bodies (r ∷ rs) = r.body ++ bodies rs

module _ {F : Foreign} {W : Type 0} (read : ℕ → ℕ → W → Result (StorageError F) Text × W)
    (put : Request → W → Result (StorageError F) Response × W) where
  pub record Sent : Type 0 where
    pub result : Result (StorageError F) (Unit {0})
    pub requests : List Request
    pub world : W

  abbrev pub sending : Request → Option Sent → Option Sent
  sending r none = none
  sending r (some s) = some (record s { requests = r ∷ s.requests })

  abbrev pub failed : StorageError F → W → Option Sent
  failed e w = some (record { result = err e; requests = []; world = w })

  module _ (provider_name : Text) (accepts : ℕ → Bool) (chunk_size total_size : ℕ) where
    -- The answer to a request: an error of the client, a refused status, or the rest of the loop.
    abbrev pub after_put : Result (StorageError F) Response → W → Option Sent → Option Sent
    after_put (err e) w rest = failed e w
    after_put (ok res) w rest =
        if accepts res.status
        then rest
        else failed (translate_http_error res provider_name (codes "upload_chunk")) w

    abbrev pub send_chunk : ℕ → Result (StorageError F) Text → W → (W → Option Sent) → Option Sent
    send_chunk offset (err e) w next = failed e w
    send_chunk offset (ok chunk) w next =
        let r : Request = record {
          first = offset;
          last = end_byte offset chunk;
          total = total_size;
          body = chunk;
        } in
        let (res, w') = put r w in sending r (after_put res w' (next w'))

    -- The `while offset < total_size` loop.
    unfoldable pub upload_ranges : ℕ → ℕ → W → Option Sent
    upload_ranges zero offset w = none
    upload_ranges (suc fuel) offset w = elim (ltb offset total_size) [
      | true ↦
          let chunk_len = min (total_size - offset) chunk_size in
          let (chunk, w') = read offset chunk_len w in
          send_chunk offset chunk w' (upload_ranges fuel (offset + chunk_len))
      | false ↦ some (record { result = ok tt; requests = []; world = w })
    ]

  -- Chunks of 5 MiB; the session was created before.
  unfoldable pub upload_onedrive_chunks : ℕ → ℕ → W → Option Sent
  unfolding upload_ranges
  upload_onedrive_chunks fuel total_size w =
      upload_ranges (codes "OneDrive") is_success (16 * 320 * 1024) total_size fuel 0 w

  -- Chunks of 2 MiB; 308 is the answer to all but the last.
  unfoldable pub upload_google_drive_chunks : ℕ → ℕ → W → Option Sent
  unfolding upload_ranges
  upload_google_drive_chunks fuel total_size w =
      upload_ranges (codes "Google Drive") (λ s. s == 308 || is_success s) (8 * 256 * 1024)
        total_size fuel 0 w
