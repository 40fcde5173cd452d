-- ===== src/Providers/Encryption/Shrunk.antt =====
-- The loop of `upload` of crates/cloud_sync_lib/src/providers/encryption.rs on a file that is shorter
-- than it was when its size was asked for.
use cloud_sync_lib.Base.{◌+◌, arith, ℕ, zero, suc, ◌<◌, ◌≡◌, refl, ap, ◌∙◌, false, none, leb}
use cloud_sync_lib.Base.Lists.{length}
use cloud_sync_lib.Base.Text.{Text}
use cloud_sync_lib.Storage.Errors.{Foreign, StorageError, Result}
use cloud_sync_lib.Providers.Encryption.{
  Aead, next_index, header, prefixed, encrypt_chunks, encrypt_file,
}
use cloud_sync_lib.Providers.Encryption.Frames.{Seals, framed}
use cloud_sync_lib.Providers.Encryption.RoundTrip.{IsReader, length-splits, encrypt_chunks_more}

module _ {F : Foreign} {W : Type 0} (aead : Aead) (seals : Seals aead) (decimal : ℕ → Text)
    (eof : F.IoError) (read : W → Result (StorageError F) Text × W) (content : W → Text)
    (reader : IsReader read content) where
  encrypt_chunks-none :
      (key : aead.Key) (base : Text) (file_size fuel idx total : ℕ) (w : W)
      → total + length (content w) < file_size
      → encrypt_chunks aead read key base file_size fuel idx total w ≡ none
  unfolding encrypt_chunks
  encrypt_chunks-none key base file_size zero idx total w h = refl
  encrypt_chunks-none key base file_size (suc fuel) idx total w h =
      let sum = length-splits aead seals decimal eof read content reader w in
      let more : leb file_size (total + length (reader.piece w)) ≡ false = ground (arith, sum) in
      encrypt_chunks_more aead seals decimal eof read content reader key base file_size fuel idx
        total w more
      ∙ ap (prefixed aead read (framed aead seals key base idx 0 (reader.piece w))) (
          encrypt_chunks-none key base file_size fuel (next_index idx)
            (total + length (reader.piece w)) (reader.next w) (omega (arith, sum)))

  -- Let a file hold fewer bytes than the size that was read before, as when it is cut during the
  -- upload. No number of rounds ends the loop of `upload`.
  pub shrunk_file_never_ends :
      (salt base : Text) (file_size fuel : ℕ) (w : W)
      → length (content w) < file_size
      → encrypt_file aead read fuel salt base file_size w ≡ none
  unfolding encrypt_file
  shrunk_file_never_ends salt base file_size fuel w h =
      ap (prefixed aead read (header salt base))
        (encrypt_chunks-none (aead.derive_file_key salt) base file_size fuel 0 0 w (omega arith))
