-- ===== src/Providers/Encryption/Sizes.antt =====
-- The sizes that the listing of crates/cloud_sync_lib/src/providers/encryption.rs gives for the vaults
-- that its `upload` writes.
use cloud_sync_lib.Base.{
  ℕ, zero, suc, ◌+◌, ◌*◌, ◌≤◌, ◌<◌, ◌≡◌, refl, ap, ◌∙◌, ◌⊎◌, inl, inr, some, min, ◌++◌, arith, leb,
  Bool-cases,
}
use cloud_sync_lib.Base.Lists.{length, length-append}
use cloud_sync_lib.Base.Text.{Text}
use cloud_sync_lib.Storage.Errors.{Foreign, StorageError, Result, ok}
use cloud_sync_lib.Providers.Encryption.{
  Aead, header, next_index, prefixed, encrypt_chunks, encrypt_file, plain_size,
}
use cloud_sync_lib.Providers.Encryption.Header.{length-header}
use cloud_sync_lib.Providers.Encryption.Frames.{Seals, framed, length-framed}
use cloud_sync_lib.Providers.Encryption.RoundTrip.{
  IsReader, length-splits, encrypt_chunks_more, encrypt_chunks_last,
}

-- The frames of `n` bytes, `k` full ones and a last one, take `size` bytes.
pub record IsSized (n size : ℕ) : Type 0 where
  pub full : ℕ
  pub framed_size : size ≡ 21 * (full + 1) + n
  pub at_most : n ≤ 65536 * (full + 1)
  pub at_least : (full ≡ 0) ⊎ (65536 * full < n)

plain_size-IsSized : (n size : ℕ) → IsSized n size → plain_size (29 + size) ≡ n
unfolding plain_size
plain_size-IsSized n size s = elim s.at_least [
  | inl none' ↦ let e = s.framed_size in let m = s.at_most in ground (arith, e, m, none')
  | inr some' ↦ let e = s.framed_size in let m = s.at_most in ground (arith, e, m, some')
]

full_least : (n size : ℕ) → 0 < n → (s : IsSized n size) → 65536 * s.full < n
full_least n size h s = elim s.at_least [ inl none' ↦ omega (arith, none') | inr some' ↦ some' ]

-- One more full frame before the others.
more_frames-IsSized :
    (n m size : ℕ) → 0 < n → m ≡ 65536 + n → IsSized n size → IsSized m (65536 + 21 + size)
more_frames-IsSized n m size h e s = record {
  full = suc s.full;
  framed_size = omega (arith, e, s.framed_size);
  at_most = omega (arith, e, s.at_most);
  at_least = inr (omega (arith, e, full_least n size h s));
}

single_frame-IsSized : (n : ℕ) → n ≤ 65536 → IsSized n (n + 21)
single_frame-IsSized n h = record {
  full = 0;
  framed_size = omega arith;
  at_most = omega arith;
  at_least = inl refl;
}

module _ {F : Foreign} {W : Type 0} (aead : Aead) (seals : Seals aead) (decimal : ℕ → Text)
    (eof : F.IoError) (read : W → Result (StorageError F) Text × W) (content : W → Text)
    (reader : IsReader read content)
    (fills : (w : W) → length (reader.piece w) ≡ min 65536 (length (content w))) where
  module _ (key : aead.Key) (base : Text) (file_size : ℕ) where
    encrypt_chunks-IsSized :
        (fuel idx total : ℕ) (w : W)
        → length (content w) < fuel
        → total + length (content w) ≡ file_size
        → (cs : Text) × (w' : W) × (encrypt_chunks aead read key base file_size fuel idx total w
            ≡ some (ok cs, w'))
          × IsSized (length (content w)) (length cs)
    encrypt_chunks-IsSized zero idx total w h e = absurd (omega arith)
    encrypt_chunks-IsSized (suc fuel) idx total w h e =
        let sum = length-splits aead seals decimal eof read content reader w in
        let fill = fills w in
        elim (Bool-cases (leb file_size (total + length (reader.piece w)))) [
          | inl yes' ↦
              let first = framed aead seals key base idx 1 (reader.piece w) in
              let long = length-framed aead seals key base idx 1 (reader.piece w) in
              let all : length (reader.piece w) ≡ length (content w) = ground (arith, sum) in
              (
                first,
                reader.next w,
                encrypt_chunks_last aead seals decimal eof read content reader key base file_size
                    fuel idx total w yes',
                rw long (
                    rw all (
                      single_frame-IsSized (length (content w))
                        (omega (arith, all, reader.bounded w)))),
              )
          | inr no' ↦
              let first = framed aead seals key base idx 0 (reader.piece w) in
              let long = length-framed aead seals key base idx 0 (reader.piece w) in
              let left : 0 < length (content (reader.next w)) = ground (arith, sum) in
              let full : length (reader.piece w) ≡ 65536 = omega (arith, fill, sum, left) in
              let (cs, w', es, sized) =
                encrypt_chunks-IsSized fuel (next_index idx) (total + length (reader.piece w))
                  (reader.next w) (omega (arith, sum, full)) (omega (arith, sum)) in
              let long_all : length (first ++ cs) ≡ 65536 + 21 + length cs =
                omega (arith, length-append first cs, long, full) in
              (
                first ++ cs,
                w',
                encrypt_chunks_more aead seals decimal eof read content reader key base file_size
                      fuel idx total w no'
                    ∙ ap (prefixed aead read first) es,
                rw long_all (
                    more_frames-IsSized (length (content (reader.next w))) (length (content w))
                      (length cs) left (omega (arith, sum, full)) sized),
              )
        ]

  -- When every read fills the buffer or reaches the end of the file, the size that a listing gives
  -- for the vault is the size of the file.
  pub plain_size-encrypt_file :
      (salt base : Text) (w : W) (fuel : ℕ)
      → length salt ≡ 16
      → length base ≡ 8
      → length (content w) < fuel
      → (vault : Text) × (w' : W) × (encrypt_file aead read fuel salt base (length (content w)) w
          ≡ some (ok vault, w'))
        × (plain_size (length vault) ≡ length (content w))
  unfolding encrypt_file
  plain_size-encrypt_file salt base w fuel hs hb hf =
      let key = aead.derive_file_key salt in
      let (cs, w', es, sized) =
        encrypt_chunks-IsSized key base (length (content w)) fuel 0 0 w hf (omega arith) in
      let long : length (header salt base ++ cs) ≡ 29 + length cs =
        length-append (header salt base) cs
        ∙ ap (λ (n : ℕ). n + length cs) (length-header salt base hs hb) in
      (
        header salt base ++ cs,
        w',
        ap (prefixed aead read (header salt base)) es,
        ap plain_size long ∙ plain_size-IsSized (length (content w)) (length cs) sized,
      )
