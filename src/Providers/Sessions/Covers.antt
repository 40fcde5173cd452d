-- ===== src/Providers/Sessions/Covers.antt =====
-- The ranges that a chunked upload of crates/cloud_sync_lib/src/providers/utils.rs sends, when a read may
-- give less than its buffer holds.
use cloud_sync_lib.Base.{
  ℕ, zero, suc, ◌+◌, ◌-◌, ◌%◌, ◌^◌, ◌≤◌, ◌<◌, ◌≡◌, refl, min, inl, inr, Bool, Option, some, List,
  [], ◌∷◌, arith, ltb,
}
use cloud_sync_lib.Base.Tests.{Bool-cases}
use cloud_sync_lib.Base.Lists.{length}
use cloud_sync_lib.Base.Text.{Text, codes}
use cloud_sync_lib.Base.Slices.{slice}
use cloud_sync_lib.Storage.Errors.{Foreign, StorageError, Result, ok, err}
use cloud_sync_lib.Providers.Translate.{Response, translate_http_error}
use cloud_sync_lib.Providers.Sessions.{
  Request, Sent, end_byte, sending, after_put, send_chunk, upload_ranges,
}
use cloud_sync_lib.Providers.Sessions.Parts.{joined, Carry, Full, whole-Full}

-- The range of a request starts at the offset and ends with the last byte of the body.
abbrev pub Ranges : Text → ℕ → Request → Type 0
Ranges file from r =
    (r.first ≡ from) × ((r.last + 1) % 2 ^ 64 ≡ from + length r.body) × (r.total ≡ length file)

abbrev pub sent_body : Request → Text
sent_body r = r.body

module _ {F : Foreign} {W : Type 0} (read : ℕ → ℕ → W → Result (StorageError F) Text × W)
    (put : Request → W → Result (StorageError F) Response × W) (file : Text) (provider_name : Text)
    (accepts : ℕ → Bool) (chunk_size : ℕ) where
  abbrev Carries : ℕ → List Request → ℕ → Type 0
  Carries = Carry sent_body (Ranges file) file chunk_size

  abbrev next_offset : ℕ → ℕ
  next_offset offset = offset + min (length file - offset) chunk_size

  -- What a run from an offset yields.
  abbrev Covers : ℕ → Option (Sent read put) → Type 0
  Covers offset o =
      (s : Sent read put) × (o ≡ some s)
      × (till : ℕ) × Carries offset s.requests till
      × (s.result ≡ ok tt → till ≡ length file)

  module _ (small : length file < 2 ^ 64)
      (reads : (o n : ℕ) (w : W) (d : Text)
        → (read o n w).0 ≡ ok d
        → (length d ≤ n) × (d ≡ slice o (length d) file)) where
    abbrev range_of : ℕ → Text → Request
    range_of offset d = record {
      first = offset;
      last = end_byte offset d;
      total = length file;
      body = d;
    }

    Ranges-range_of :
        (offset : ℕ) (d : Text)
        → offset + length d ≤ length file
        → Ranges file offset (range_of offset d)
    Ranges-range_of offset d l = (refl, omega (arith, small, l), refl)

    after_put-Covers :
        (offset : ℕ) (d : Text) (res : Result (StorageError F) Response) (w : W)
        (o : Option (Sent read put))
        → offset ≤ length file
        → length d ≤ min (length file - offset) chunk_size
        → d ≡ slice offset (length d) file
        → Covers (next_offset offset) o
        → Covers offset (
            sending read put
              (range_of offset d)
              (after_put read put provider_name accepts chunk_size (length file) res w o))
    after_put-Covers offset d (err e) w o p l h c = (
      record { result = err e; requests = range_of offset d ∷ []; world = w },
      refl,
      next_offset offset,
      (Ranges-range_of offset d (omega (arith, l, p)), l, h, refl),
      λ x. cc,
    )
    after_put-Covers offset d (ok res) w o p l h (s, e, till, cs, f) =
        let r = Ranges-range_of offset d (omega (arith, l, p)) in
        elim (Bool-cases (accepts res.status)) [
          | inl i ↦
              rw (i, e)
                (
                  record s { requests = range_of offset d ∷ s.requests },
                  refl,
                  till,
                  (r, l, h, cs),
                  f,
                )
          | inr i ↦ rw i (
            record {
              result = err (translate_http_error res provider_name (codes "upload_chunk"));
              requests = range_of offset d ∷ [];
              world = w;
            },
            refl,
            next_offset offset,
            (r, l, h, refl),
            λ x. cc,
          )
        ]

    send_chunk-Covers :
        (offset : ℕ) (r : Result (StorageError F) Text) (w : W) (next : W → Option (Sent read put))
        → offset ≤ length file
        → ((d : Text)
            → r ≡ ok d
            → (length d ≤ min (length file - offset) chunk_size)
              × (d ≡ slice offset (length d) file))
        → ((w' : W) → Covers (next_offset offset) (next w'))
        → Covers offset
            (send_chunk read put provider_name accepts chunk_size (length file) offset r w next)
    send_chunk-Covers offset (err e) w next p h k =
        (record { result = err e; requests = []; world = w }, refl, offset, refl, λ x. cc)
    send_chunk-Covers offset (ok d) w next p h k =
        let (res, w') = put (range_of offset d) w in
        let (l, c) = h d refl in after_put-Covers offset d res w' (next w') p l c (k w')

    upload_ranges-Covers :
        (fuel offset : ℕ) (w : W)
        → 0 < chunk_size
        → offset ≤ length file
        → length file - offset < fuel
        → Covers offset
            (upload_ranges read put provider_name accepts chunk_size (length file) fuel offset w)
    unfolding upload_ranges
    upload_ranges-Covers zero offset w p l m = absurd (omega arith)
    upload_ranges-Covers (suc fuel) offset w p l m = elim (Bool-cases (ltb offset (length file))) [
      | inl i ↦
          let o : offset < length file = ground arith in
          let n : ℕ = min (length file - offset) chunk_size in
          rw (i, upload_ranges)
            (let (chunk, w') = read offset n w in
              send_chunk-Covers offset chunk w' _ l (reads offset n w)
                (λ w2. upload_ranges-Covers fuel (offset + n) w2 p (omega arith) (omega arith)))
      | inr i ↦
          let o : offset ≡ length file = ground arith in
          rw (i, upload_ranges)
            (record { result = ok tt; requests = []; world = w }, refl, offset, refl, λ x. o)
    ]

    -- Let every read give a part of the file from the offset, at most as long as asked, and let the
    -- file be shorter than 2^64 bytes and the chunks not empty. With more fuel than the file has
    -- bytes, a chunked upload ends, whatever the server answers. The ranges of its requests start a
    -- chunk apart, from the first byte on, and end with their bodies, which are the file's parts from
    -- there. When it reports success, the bodies in order are the file exactly if every read gave all
    -- that was asked for.
    pub upload_ranges_covers :
        (fuel : ℕ) (w : W)
        → 0 < chunk_size
        → length file < fuel
        → (s : Sent read put) × (upload_ranges read put provider_name accepts chunk_size
              (length file)
              fuel
              0
              w
            ≡ some s)
          × (till : ℕ) × Carry sent_body (Ranges file) file chunk_size 0 s.requests till
          × (s.result ≡ ok tt
              → (Full sent_body (Ranges file) file chunk_size 0 s.requests
                  → joined sent_body s.requests ≡ file)
                × (joined sent_body s.requests ≡ file
                    → Full sent_body (Ranges file) file chunk_size 0 s.requests))
    upload_ranges_covers fuel w p m =
        let (s, e, till, cs, f) = upload_ranges-Covers fuel 0 w p (omega arith) (omega arith) in
        (
          s,
          e,
          till,
          cs,
          λ x. whole-Full sent_body (Ranges file) file chunk_size s.requests till cs (f x),
        )
