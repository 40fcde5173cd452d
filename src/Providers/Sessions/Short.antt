-- ===== src/Providers/Sessions/Short.antt =====
-- The chunked uploads of crates/cloud_sync_lib/src/providers/utils.rs when a read does not fill its
-- buffer: the offset still advances by the length that was asked for.
use mathlib.Core.Path.{subst}
use cloud_sync_lib.Base.{
  ℕ, zero, suc, ◌+◌, ◌-◌, ◌≤◌, ◌<◌, ◌≡◌, refl, min, inl, inr, Bool, true, Option, some, [], ◌∷◌,
  arith, ltb,
}
use cloud_sync_lib.Base.Tests.{Bool-cases}
use cloud_sync_lib.Base.Lists.{length, length-append}
use cloud_sync_lib.Base.Text.{Text}
use cloud_sync_lib.Storage.Errors.{Foreign, StorageError, Result, ok}
use cloud_sync_lib.Providers.Translate.{Response}
use cloud_sync_lib.Providers.Sessions.{Request, Sent, end_byte, bodies, send_chunk, upload_ranges}

-- A local file that can always be read, up to the length that is asked for, and a server that
-- accepts every chunk.
pub record IsCalm {F : Foreign} {W : Type 0} (read : ℕ → ℕ → W → Result (StorageError F) Text × W)
    (put : Request → W → Result (StorageError F) Response × W) (accepts : ℕ → Bool) : Type 0 where
  pub chunk : ℕ → ℕ → W → Text
  pub response : Request → W → Response
  pub reads : (o n : ℕ) (w : W) → (read o n w).0 ≡ ok (chunk o n w)
  pub at_most : (o n : ℕ) (w : W) → length (chunk o n w) ≤ n
  pub answers : (r : Request) (w : W) → (put r w).0 ≡ ok (response r w)
  pub accepted : (r : Request) (w : W) → accepts (response r w).status ≡ true

module _ {F : Foreign} {W : Type 0} (read : ℕ → ℕ → W → Result (StorageError F) Text × W)
    (put : Request → W → Result (StorageError F) Response × W) (provider_name : Text)
    (accepts : ℕ → Bool) (chunk_size total_size : ℕ) (calm : IsCalm read put accepts) where
  -- The run reports success, and has sent no more bytes than that.
  abbrev Succeeds : ℕ → Option (Sent read put) → Type 0
  Succeeds most o =
      (s : Sent read put) × (o ≡ some s) × (s.result ≡ ok tt) × (length (bodies s.requests) ≤ most)

  send_chunk-Succeeds :
      (offset n most : ℕ) (w : W) (next : W → Option (Sent read put))
      → ((w' : W) → Succeeds most (next w'))
      → Succeeds (length (calm.chunk offset n w) + most) (
          send_chunk read put provider_name accepts chunk_size total_size offset
            (read offset n w).0
            (read offset n w).1
            next)
  send_chunk-Succeeds offset n most w next k =
      let d : Text = calm.chunk offset n w in
      let r : Request = record {
        first = offset;
        last = end_byte offset d;
        total = total_size;
        body = d;
      } in
      let w' : W = (read offset n w).1 in
      let (s, e, o, b) = k (put r w').1 in
      rw (calm.reads offset n w, calm.answers r w', calm.accepted r w', e)
        (
          record s { requests = r ∷ s.requests },
          refl,
          o,
          (let l = length-append d (bodies s.requests) in omega arith),
        )

  upload_ranges-Succeeds :
      (fuel offset : ℕ) (w : W)
      → 0 < chunk_size
      → total_size - offset < fuel
      → Succeeds
          (total_size - offset)
          (upload_ranges read put provider_name accepts chunk_size total_size fuel offset w)
  unfolding upload_ranges
  upload_ranges-Succeeds zero offset w p m = absurd (omega arith)
  upload_ranges-Succeeds (suc fuel) offset w p m = elim (Bool-cases (ltb offset total_size)) [
    | inl i ↦
        let o : offset < total_size = ground arith in
        let n : ℕ = min (total_size - offset) chunk_size in
        let (s, e, f, b) =
          send_chunk-Succeeds offset n (total_size - (offset + n)) w
            (upload_ranges read put provider_name accepts chunk_size total_size fuel (offset + n))
            (λ w2. upload_ranges-Succeeds fuel (offset + n) w2 p (omega arith)) in
        rw (i, upload_ranges) (s, e, f, (let l = calm.at_most offset n w in omega arith))
    | inr i ↦
        rw (i, upload_ranges)
          (record { result = ok tt; requests = []; world = w }, refl, refl, omega arith)
  ]

  -- When the first read of a file that can be read comes short, which the contract of a read allows,
  -- and the server accepts every chunk, the upload reports success, but has sent fewer bytes than
  -- the file has.
  short_read_loses :
      (fuel : ℕ) (w : W)
      → 0 < chunk_size
      → 0 < total_size
      → total_size ≤ fuel
      → length (calm.chunk 0 (min total_size chunk_size) w) < min total_size chunk_size
      → (s : Sent read put) × (upload_ranges read put provider_name accepts chunk_size total_size
            (suc fuel)
            0
            w
          ≡ some s)
        × (s.result ≡ ok tt)
        × (length (bodies s.requests) < total_size)
  unfolding upload_ranges
  short_read_loses fuel w p q m h =
      let i : ltb 0 total_size ≡ true = ground arith in
      let z : total_size ≡ total_size - 0 = omega arith in
      let h' : length (calm.chunk 0 (min (total_size - 0) chunk_size) w)
          < min (total_size - 0) chunk_size =
        subst (λ t. length (calm.chunk 0 (min t chunk_size) w) < min t chunk_size) z h in
      let n : ℕ = min (total_size - 0) chunk_size in
      let (s, e, f, b) =
        send_chunk-Succeeds 0 n (total_size - (0 + n)) w
          (upload_ranges read put provider_name accepts chunk_size total_size fuel (0 + n))
          (λ w2. upload_ranges-Succeeds fuel (0 + n) w2 p (omega arith)) in
      rw (i, upload_ranges) (s, e, f, omega arith)
