-- ===== src/Providers/Encryption/RoundTrip.antt =====
-- The vault that `upload` of crates/cloud_sync_lib/src/providers/encryption.rs writes, read back by
-- `download`.
use cloud_sync_lib.Base.{
  true, false, ◌∙◌, ap, sym, Option, ◌<◌, [], ◌∷◌, arith, inl, inr, Bool-cases, leb, ℕ, zero, suc,
  ◌+◌, ◌≤◌, ◌≡◌, refl, some, ◌++◌, ◌==◌, if◌then◌else◌,
}
use cloud_sync_lib.Providers.Encryption.{
  encrypt_file, decrypt_file, header, Decrypted, wrote, decrypt_chunks, nonce_of, aad_of,
  write_chunk, Aead, next_index, flag_of, on_read, prefixed, encrypt_chunks,
}
use cloud_sync_lib.Base.Lists.{append-nil, length, length-append}
use cloud_sync_lib.Providers.Encryption.Header.{decrypt_file-header}
use cloud_sync_lib.Providers.Encryption.Frames.{length-framed, decrypt_chunks-framed, Seals, framed}
use cloud_sync_lib.Base.Text.{Text}
use cloud_sync_lib.Storage.Errors.{Foreign, StorageError, Result, ok}

-- Reads that give the rest of a file, `content`, piece by piece: a piece is no longer than the
-- buffer and is empty only at the end.
pub record IsReader {F : Foreign} {W : Type 0} (read : W → Result (StorageError F) Text × W)
    (content : W → Text) : Type 0 where
  pub piece : W → Text
  pub next : W → W
  pub reads : (w : W) → read w ≡ (ok (piece w), next w)
  pub splits : (w : W) → content w ≡ piece w ++ content (next w)
  pub moves : (w : W) → 0 < length (content w) → 0 < length (piece w)
  pub bounded : (w : W) → length (piece w) ≤ 65536

pub if_one : {A : Type 0} (n : ℕ) (x y : A) → n ≡ 1 → (if n == 1 then x else y) ≡ x
if_one n x y e = rw e refl

pub if_zero : {A : Type 0} (n : ℕ) (x y : A) → n ≡ 0 → (if n == 1 then x else y) ≡ y
if_zero n x y e = rw e refl

length-nil : (s : Text) → length s ≡ 0 → s ≡ []
length-nil [] e = refl
length-nil (a ∷ s) e = absurd (omega arith)

module _ {F : Foreign} {W : Type 0} (aead : Aead) (seals : Seals aead) (decimal : ℕ → Text)
    (eof : F.IoError) (read : W → Result (StorageError F) Text × W) (content : W → Text)
    (reader : IsReader read content) where
  pub length-splits :
      (w : W) → length (content w) ≡ length (reader.piece w) + length (content (reader.next w))
  length-splits w =
      ap length (reader.splits w) ∙ length-append (reader.piece w) (content (reader.next w))

  module _ (key : aead.Key) (base : Text) (file_size : ℕ) where
    abbrev flag_at : ℕ → W → ℕ
    flag_at total w = flag_of aead read key base file_size (total + length (reader.piece w))

    abbrev frame_at : ℕ → ℕ → W → Text
    frame_at idx total w = framed aead seals key base idx (flag_at total w) (reader.piece w)

    -- One round of the loop.
    encrypt_chunks_step :
        (fuel idx total : ℕ) (w : W)
        → encrypt_chunks aead read key base file_size (suc fuel) idx total w ≡ (
            if flag_at total w == 1
            then some (ok (frame_at idx total w), reader.next w)
            else prefixed aead read (frame_at idx total w) (
                encrypt_chunks aead read key base file_size fuel
                  (next_index idx)
                  (total + length (reader.piece w))
                  (reader.next w)))
    unfolding encrypt_chunks
    encrypt_chunks_step fuel idx total w =
        ap
          (λ (x : Result (StorageError F) Text × W).
            on_read aead read key base file_size idx total x.0 x.1
              (λ t. encrypt_chunks aead read key base file_size fuel (next_index idx) t x.1))
          (reader.reads w)
        ∙ ap
            (λ x. write_chunk aead read (flag_at total w) x (reader.next w) (
              encrypt_chunks aead read key base file_size fuel (next_index idx)
                (total + length (reader.piece w)) (reader.next w)))
            (seals.encrypts key (nonce_of base idx) (aad_of idx (flag_at total w)) (reader.piece w))

    -- The two kinds of rounds.
    pub encrypt_chunks_last :
        (fuel idx total : ℕ) (w : W)
        → leb file_size (total + length (reader.piece w)) ≡ true
        → encrypt_chunks aead read key base file_size (suc fuel) idx total w
          ≡ some (ok (framed aead seals key base idx 1 (reader.piece w)), reader.next w)
    encrypt_chunks_last fuel idx total w e = encrypt_chunks_step fuel idx total w ∙ rw e refl

    pub encrypt_chunks_more :
        (fuel idx total : ℕ) (w : W)
        → leb file_size (total + length (reader.piece w)) ≡ false
        → encrypt_chunks aead read key base file_size (suc fuel) idx total w
          ≡ prefixed aead read (framed aead seals key base idx 0 (reader.piece w)) (
              encrypt_chunks aead read key base file_size fuel
                (next_index idx)
                (total + length (reader.piece w))
                (reader.next w))
    encrypt_chunks_more fuel idx total w e = encrypt_chunks_step fuel idx total w ∙ rw e refl

    abbrev whole : W → Option (Decrypted F)
    whole w = some (record { result = ok tt; written = content w })

    -- The loop ends, and what it wrote reads back as the rest of the file.
    abbrev ReadsBack : ℕ → ℕ → ℕ → W → Type 0
    ReadsBack fuel idx total w =
        (cs : Text) × (w' : W) × (encrypt_chunks aead read key base file_size fuel idx total w
          ≡ some (ok cs, w'))
        × ((g : ℕ) → length cs < g → decrypt_chunks aead decimal eof key base g idx cs ≡ whole w)

    at_end : (w : W) → length (content (reader.next w)) ≡ 0 → content w ≡ reader.piece w
    at_end w e =
        reader.splits w ∙ rw (length-nil (content (reader.next w)) e) (append-nil (reader.piece w))

    decrypt_last :
        (g idx total : ℕ) (w : W)
        → 0 < g
        → flag_at total w ≡ 1
        → length (content (reader.next w)) ≡ 0
        → decrypt_chunks aead decimal eof key base g idx (frame_at idx total w) ≡ whole w
    decrypt_last zero idx total w h one e = absurd (omega arith)
    decrypt_last (suc g) idx total w h one e =
        ap (decrypt_chunks aead decimal eof key base (suc g) idx)
          (sym (append-nil (frame_at idx total w)))
        ∙ decrypt_chunks-framed aead seals key base decimal eof g idx (flag_at total w)
            (reader.piece w) [] (reader.bounded w)
        ∙ ap (wrote aead (reader.piece w)) (if_one (flag_at total w) _ _ one)
        ∙ ap (λ (t : Text). some (record { result = ok tt; written = t }))
            (append-nil (reader.piece w) ∙ sym (at_end w e))

    decrypt_more :
        (g idx total : ℕ) (w : W) (cs : Text)
        → length (frame_at idx total w ++ cs) < g
        → flag_at total w ≡ 0
        → ((g' : ℕ)
            → length cs < g'
            → decrypt_chunks aead decimal eof key base g' (next_index idx) cs
              ≡ whole (reader.next w))
        → decrypt_chunks aead decimal eof key base g idx (frame_at idx total w ++ cs) ≡ whole w
    decrypt_more zero idx total w cs h none' rest = absurd (omega arith)
    decrypt_more (suc g) idx total w cs h none' rest =
        let long = length-framed aead seals key base idx (flag_at total w) (reader.piece w) in
        let sum = length-append (frame_at idx total w) cs in
        decrypt_chunks-framed aead seals key base decimal eof g idx (flag_at total w)
          (reader.piece w) cs (reader.bounded w)
        ∙ ap (wrote aead (reader.piece w))
            (if_zero (flag_at total w) _ _ none' ∙ rest g (omega (arith, h, long, sum)))
        ∙ ap (λ (t : Text). some (record { result = ok tt; written = t })) (sym (reader.splits w))

    -- With more fuel than bytes are left to read the loop ends.
    pub encrypt_chunks-ReadsBack :
        (fuel idx total : ℕ) (w : W)
        → length (content w) < fuel
        → total + length (content w) ≡ file_size
        → ReadsBack fuel idx total w
    encrypt_chunks-ReadsBack zero idx total w h e = absurd (omega arith)
    encrypt_chunks-ReadsBack (suc fuel) idx total w h e =
        elim (Bool-cases (leb file_size (total + length (reader.piece w)))) [
          | inl yes' ↦
              let one : flag_at total w ≡ 1 = rw yes' refl in
              let end' : length (content (reader.next w)) ≡ 0 = ground (arith, length-splits w) in
              (
                frame_at idx total w,
                reader.next w,
                encrypt_chunks_step fuel idx total w ∙ if_one (flag_at total w) _ _ one,
                λ g hg. decrypt_last g idx total w (omega arith) one end',
              )
          | inr no' ↦
              let zero' : flag_at total w ≡ 0 = rw no' refl in
              let left : 0 < length (content w) = ground (arith, length-splits w) in
              let less : length (content (reader.next w)) < fuel =
                omega (arith, length-splits w, reader.moves w left) in
              let (cs, w', es, back) =
                encrypt_chunks-ReadsBack fuel (next_index idx) (total + length (reader.piece w))
                  (reader.next w) less (omega (arith, length-splits w, e)) in
              (
                frame_at idx total w ++ cs,
                w',
                encrypt_chunks_step fuel idx total w
                    ∙ if_zero (flag_at total w) _ _ zero'
                    ∙ ap (prefixed aead read (frame_at idx total w)) es,
                λ g hg. decrypt_more g idx total w cs hg zero' back,
              )
        ]

  -- With more fuel than the file has bytes, `upload` writes a vault, and `download` of it writes
  -- the file, whatever the sizes of the reads, the salt and the nonce are.
  pub decrypt_file-encrypt_file :
      (salt base : Text) (w : W) (fuel : ℕ)
      → length salt ≡ 16
      → length base ≡ 8
      → length (content w) < fuel
      → (vault : Text) × (w' : W) × (encrypt_file aead read fuel salt base (length (content w)) w
          ≡ some (ok vault, w'))
        × (decrypt_file {F = F} aead decimal eof (suc (length vault)) vault
            ≡ some (record { result = ok tt; written = content w }))
  unfolding encrypt_file
  decrypt_file-encrypt_file salt base w fuel hs hb hf =
      let key = aead.derive_file_key salt in
      let (cs, w', es, back) =
        encrypt_chunks-ReadsBack key base (length (content w)) fuel 0 0 w hf (omega arith) in
      (
        header salt base ++ cs,
        w',
        ap (prefixed aead read (header salt base)) es,
        decrypt_file-header aead decimal eof (suc (length (header salt base ++ cs))) salt base cs hs
              hb
            ∙ back _ (omega (arith, length-append (header salt base) cs)),
      )
