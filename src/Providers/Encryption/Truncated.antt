-- ===== src/Providers/Encryption/Truncated.antt =====
-- What `download` of crates/cloud_sync_lib/src/providers/encryption.rs makes of a vault that ends
-- after its first frame.
use mathlib.Core.List.{append_assoc}
use cloud_sync_lib.Base.{
  ◌+◌, leb, ap, ◌∙◌, ℕ, zero, suc, ◌≤◌, ◌<◌, ◌≡◌, sym, false, some, [], ◌++◌, arith,
}
use cloud_sync_lib.Base.Lists.{length, append-nil, length-append}
use cloud_sync_lib.Base.Slices.{take, take-append}
use cloud_sync_lib.Base.Text.{Text}
use cloud_sync_lib.Storage.Errors.{Foreign, StorageError, Result, ok}
use cloud_sync_lib.Providers.Encryption.{
  Aead, header, prefixed, encrypt_chunks, encrypt_file, decrypt_chunks, decrypt_file,
}
use cloud_sync_lib.Providers.Encryption.Header.{length-header, decrypt_file-header}
use cloud_sync_lib.Providers.Encryption.Frames.{Seals, framed, length-framed, decrypt_chunks-framed}
use cloud_sync_lib.Providers.Encryption.RoundTrip.{
  IsReader, length-splits, encrypt_chunks_more, encrypt_chunks-ReadsBack,
}

module _ {F : Foreign} {W : Type 0} (aead : Aead) (seals : Seals aead) (decimal : ℕ → Text)
    (eof : F.IoError) (read : W → Result (StorageError F) Text × W) (content : W → Text)
    (reader : IsReader read content) where
  -- A frame that is not flagged as the last one, with nothing behind it.
  decrypt_chunks-cut :
      (key : aead.Key) (base m : Text) (fuel : ℕ)
      → length m ≤ 65536
      → decrypt_chunks {F = F} aead decimal eof key base
          (suc (suc fuel))
          0
          (framed aead seals key base 0 0 m)
        ≡ some (record { result = ok tt; written = m })
  unfolding decrypt_chunks
  decrypt_chunks-cut key base m fuel h =
      ap (decrypt_chunks aead decimal eof key base (suc (suc fuel)) 0)
        (sym (append-nil (framed aead seals key base 0 0 m)))
      ∙ decrypt_chunks-framed aead seals key base decimal eof (suc fuel) 0 0 m [] h
      ∙ ap (λ (t : Text). some (record { result = ok tt; written = t })) (append-nil m)

  -- A vault of more than one frame starts with the header and a frame that is not the last.
  encrypt_file_start :
      (salt base : Text) (w : W) (fuel : ℕ)
      → length (content w) < fuel
      → length (reader.piece w) < length (content w)
      → (cs : Text) × (w' : W) × (encrypt_file aead read fuel salt base (length (content w)) w
          ≡ some (
            ok (
                header salt base
                ++ (framed aead seals (aead.derive_file_key salt) base 0 0 (reader.piece w) ++ cs)),
            w',
          ))
  unfolding encrypt_file
  encrypt_file_start salt base w zero hf more = absurd (omega arith)
  encrypt_file_start salt base w (suc fuel) hf more =
      let key = aead.derive_file_key salt in
      let size = length (content w) in
      let sum = length-splits aead seals decimal eof read content reader w in
      let some_read = reader.moves w (omega arith) in
      let (cs, w', es, back) =
        encrypt_chunks-ReadsBack aead seals decimal eof read content reader key base size fuel 1
          (0 + length (reader.piece w)) (reader.next w) (omega arith) (omega arith) in
      let not' : leb size (0 + length (reader.piece w)) ≡ false = ground (arith, more) in
      let step =
        encrypt_chunks_more aead seals decimal eof read content reader key base size fuel 0 0 w
          not' in
      let first = framed aead seals key base 0 0 (reader.piece w) in
      let ran : encrypt_chunks aead read key base size (suc fuel) 0 0 w
          ≡ some (ok (first ++ cs), w') =
        step ∙ ap (prefixed aead read first) es in
      (cs, w', ap (prefixed aead read (header salt base)) ran)

  -- Let a file be longer than its first read. The vault that `upload` writes for it, cut off behind
  -- the first frame, is downloaded with success: the destination holds what was read first, and
  -- nothing tells it from a whole file.
  cut_vault_opens :
      (salt base : Text) (w : W) (fuel g : ℕ)
      → length salt ≡ 16
      → length base ≡ 8
      → length (content w) < fuel
      → length (reader.piece w) < length (content w)
      → (vault : Text) × (w' : W) × (encrypt_file aead read fuel salt base (length (content w)) w
          ≡ some (ok vault, w'))
        × (decrypt_file {F = F} aead decimal eof
              (suc (suc g))
              (take (50 + length (reader.piece w)) vault)
            ≡ some (record { result = ok tt; written = reader.piece w }))
  cut_vault_opens salt base w fuel g hs hb hf more =
      let key = aead.derive_file_key salt in
      let first = framed aead seals key base 0 0 (reader.piece w) in
      let (cs, w', e) = encrypt_file_start salt base w fuel hf more in
      let long = length-framed aead seals key base 0 0 (reader.piece w) in
      let kept : take (50 + length (reader.piece w)) (header salt base ++ (first ++ cs))
          ≡ header salt base ++ first =
        ap (take (50 + length (reader.piece w))) (sym (append_assoc (header salt base) first cs))
        ∙ take-append (50 + length (reader.piece w)) (header salt base ++ first) cs (
            omega (
              arith,
              long,
              length-header salt base hs hb,
              length-append (header salt base) first,
            )) in
      (
        header salt base ++ (first ++ cs),
        w',
        e,
        ap (decrypt_file aead decimal eof (suc (suc g))) kept
            ∙ decrypt_file-header aead decimal eof (suc (suc g)) salt base first hs hb
            ∙ decrypt_chunks-cut key base (reader.piece w) g (reader.bounded w),
      )
