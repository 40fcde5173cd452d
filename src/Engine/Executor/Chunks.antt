-- ===== src/Engine/Executor/Chunks.antt =====
-- The chunk loop of crates/cloud_sync_daemon/src/engine/executor.rs ends, for sessions that make
-- progress.
use cloud_sync_lib.Base.{
  ℕ, zero, suc, ◌≡◌, refl, ◌<◌, ◌≤◌, ◌*◌, inl, inr, true, false, Option, some, arith, Bool-cases,
  ◌&&◌, leb,
}
use cloud_sync_lib.Base.Text.{Text}
use cloud_sync_lib.Storage.Errors.{Foreign, StorageError, Result, ok, err}
use cloud_sync_lib.Storage.Capabilities.{has_capability, resumable_upload}
use cloud_sync_lib.Engine.Host.{Host}
use cloud_sync_lib.Engine.Executor.{Outcome, finish_session, upload_chunks, upload_file}

-- Every chunk that is accepted leaves less to send, and a new session has at most `most` to send;
-- the sessions that occur are valid ones.
pub record Progresses {F : Foreign} (h : Host F) (most : ℕ) : Type 1 where
  pub left : h.Session → ℕ
  pub IsValid : h.Session → Type 0
  pub falls :
      (s s' : h.Session) (w w' : h.World)
      → IsValid s
      → h.is_complete s ≡ false
      → h.upload_next_chunk s w ≡ (ok s', w')
      → left s' < left s
  pub stays :
      (s s' : h.Session) (w w' : h.World)
      → IsValid s
      → h.is_complete s ≡ false
      → h.upload_next_chunk s w ≡ (ok s', w')
      → IsValid s'
  pub starts :
      (l r : Text) (chunk : ℕ) (s : h.Session) (w w' : h.World)
      → h.start_resumable_upload l r chunk w ≡ (ok s, w')
      → (left s ≤ most) × IsValid s

module _ {F : Foreign} (h : Host F) (most : ℕ) (v : Progresses h most) where
  abbrev after_chunk : ℕ → Result (StorageError F) h.Session → h.World → Option (Outcome h)
  after_chunk fuel (ok s) w = upload_chunks h fuel s w
  after_chunk fuel (err e) w = some (err e, w)

  upload_chunks-step :
      (fuel : ℕ) (s : h.Session) (w : h.World)
      → h.is_complete s ≡ false
      → upload_chunks h (suc fuel) s w
        ≡ after_chunk fuel (h.upload_next_chunk s w).0 (h.upload_next_chunk s w).1
  unfolding upload_chunks
  upload_chunks-step fuel s w open' = ground arith

  upload_chunks_complete :
      (fuel : ℕ) (s : h.Session) (w : h.World)
      → h.is_complete s ≡ true
      → (r : Outcome h) × (upload_chunks h (suc fuel) s w ≡ some r)
  unfolding upload_chunks
  upload_chunks_complete fuel s w done = (finish_session h s w, rw (done, upload_chunks) refl)

  after_chunk_total :
      (fuel : ℕ) (s : h.Session) (w w' : h.World) (r : Result (StorageError F) h.Session)
      → v.left s < suc fuel
      → v.IsValid s
      → h.is_complete s ≡ false
      → h.upload_next_chunk s w ≡ (r, w')
      → ((s' : h.Session) (w2 : h.World)
          → v.left s' < fuel
          → v.IsValid s'
          → (o : Outcome h) × (upload_chunks h fuel s' w2 ≡ some o))
      → (o : Outcome h) × (after_chunk fuel r w' ≡ some o)
  after_chunk_total fuel s w w' (ok s') m good open' e ih =
      ih s' w' (omega (arith, v.falls s s' w w' good open' e)) (v.stays s s' w w' good open' e)
  after_chunk_total fuel s w w' (err x) m good open' e ih = ((err x, w'), refl)

  -- With more fuel than there is left to send, the session ends.
  upload_chunks_total :
      (fuel : ℕ) (s : h.Session) (w : h.World)
      → v.left s < fuel
      → v.IsValid s
      → (r : Outcome h) × (upload_chunks h fuel s w ≡ some r)
  upload_chunks_total zero s w m good = absurd (omega arith)
  upload_chunks_total (suc fuel) s w m good = elim (Bool-cases (h.is_complete s)) [
    | inl done ↦ upload_chunks_complete fuel s w done
    | inr open' ↦ rw (upload_chunks-step fuel s w open') (
        after_chunk_total fuel s w (h.upload_next_chunk s w).1 (h.upload_next_chunk s w).0 m good
          open' refl (upload_chunks_total fuel))
  ]

  abbrev after_start :
      ℕ → Text → Text → Result (StorageError F) h.Session → h.World → Option (Outcome h)
  after_start fuel l r (ok s) w = upload_chunks h fuel s w
  after_start fuel l r (err e) w = some (h.upload l r w)

  after_start_total :
      (fuel : ℕ) (l r : Text) (w w' : h.World) (x : Result (StorageError F) h.Session)
      → most < fuel
      → h.start_resumable_upload l r (2 * 1024 * 1024) w ≡ (x, w')
      → (o : Outcome h) × (after_start fuel l r x w' ≡ some o)
  after_start_total fuel l r w w' (ok s) m e =
      upload_chunks_total fuel s w' (omega (arith, (v.starts l r _ s w w' e).0))
        (v.starts l r _ s w w' e).1
  after_start_total fuel l r w w' (err x) m e = (h.upload l r w', refl)

  upload_file-resumable :
      (fuel : ℕ) (l r : Text) (size : ℕ) (w : h.World)
      → (has_capability h.capabilities resumable_upload && leb (8 * 1024 * 1024) size) ≡ true
      → upload_file h fuel l r size w
        ≡ after_start fuel l r
            (h.start_resumable_upload l r (2 * 1024 * 1024) w).0
            (h.start_resumable_upload l r (2 * 1024 * 1024) w).1
  unfolding upload_file
  upload_file-resumable fuel l r size w big = ground arith

  upload_file-plain :
      (fuel : ℕ) (l r : Text) (size : ℕ) (w : h.World)
      → (has_capability h.capabilities resumable_upload && leb (8 * 1024 * 1024) size) ≡ false
      → upload_file h fuel l r size w ≡ some (h.upload l r w)
  unfolding upload_file
  upload_file-plain fuel l r size w small = ground arith

  -- An upload ends, by one request or by a session.
  pub upload_file_total :
      (fuel : ℕ) (l r : Text) (size : ℕ) (w : h.World)
      → most < fuel
      → (o : Outcome h) × (upload_file h fuel l r size w ≡ some o)
  upload_file_total fuel l r size w m =
      elim (Bool-cases
        (has_capability h.capabilities resumable_upload && leb (8 * 1024 * 1024) size)) [
          | inl big ↦ rw (upload_file-resumable fuel l r size w big) (
              after_start_total fuel l r w (h.start_resumable_upload l r (2 * 1024 * 1024) w).1
                (h.start_resumable_upload l r (2 * 1024 * 1024) w).0 m refl)
          | inr small ↦ (h.upload l r w, upload_file-plain fuel l r size w small)
        ]
