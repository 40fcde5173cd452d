-- ===== src/Providers/Encryption.antt =====
-- `EncryptedBackend` of crates/cloud_sync_lib/src/providers/encryption.rs: the vault format, written
-- and read chunk by chunk, and the sizes of a listing. AES-256-GCM and PBKDF2 are `Aead`, the random
-- salt and nonce are arguments, and so are the texts of a decimal and the error at the end of a file.
pub mod Frames
pub mod Header
pub mod RoundTrip
pub mod Truncated
pub mod Sizes
pub mod Shrunk
pub mod Examples
use cloud_sync_lib.Base.{
  ℕ, zero, suc, ◌+◌, ◌-◌, ◌*◌, ◌/◌, ◌%◌, ◌^◌, min, Bool, true, false, ◌&&◌, Option, none, some,
  List, [], ◌∷◌, ◌++◌, ◌==◌, ltb, leb, if◌then◌else◌,
}
use cloud_sync_lib.Base.Lists.{length}
use cloud_sync_lib.Base.Slices.{take, drop}
use cloud_sync_lib.Base.Text.{Text, codes, text_eq}
use cloud_sync_lib.Storage.Errors.{Foreign, StorageError, Result, ok, err, provider, io}
use cloud_sync_lib.Engine.Scanner.{StorageItem}
use cloud_sync_lib.Providers.Backend.{Backend, Call}

-- Key, nonce, associated data, message; `none` is a failure, with one text for all.
pub record Aead : Type 1 where
  pub Key : Type 0
  pub derive_file_key : Text → Key
  pub legacy_key : Key
  pub encrypt : Key → Text → Text → Text → Option Text
  pub decrypt : Key → Text → Text → Text → Option Text
  pub error_text : Text

abbrev pub magic : Text
magic = codes "CSYC"

-- `to_be_bytes` of a `u32`
abbrev pub be32 : ℕ → Text
be32 n = n / 2 ^ 24 % 256 ∷ n / 2 ^ 16 % 256 ∷ n / 2 ^ 8 % 256 ∷ n % 256 ∷ []

-- `chunk_index.saturating_add(1)`
abbrev pub next_index : ℕ → ℕ
next_index n = min (n + 1) (2 ^ 32 - 1)

abbrev pub nonce_of : Text → ℕ → Text
nonce_of base_nonce chunk_index = base_nonce ++ be32 chunk_index

abbrev pub aad_of : ℕ → ℕ → Text
aad_of chunk_index is_last = be32 chunk_index ++ is_last ∷ []

-- Length, flag and ciphertext.
abbrev pub frame : Text → ℕ → Text
frame ciphertext is_last = be32 (length ciphertext % 2 ^ 32) ++ is_last ∷ ciphertext

abbrev pub header : Text → Text → Text
header salt base_nonce = magic ++ 1 ∷ (salt ++ base_nonce)

-- `read_exact`: `none` at the end of the file.
unfoldable pub read_exact : ℕ → Text → Option (Text × Text)
read_exact zero bytes = some ([], bytes)
read_exact (suc n) [] = none
read_exact (suc n) (b ∷ bytes) = elim (read_exact n bytes) [
  | none ↦ none
  | some (front, rest) ↦ some (b ∷ front, rest)
]

abbrev pub read_u32 : Text → Option (ℕ × Text)
read_u32 (a ∷ b ∷ c ∷ d ∷ rest) = some (a * 2 ^ 24 + b * 2 ^ 16 + c * 2 ^ 8 + d, rest)
read_u32 _ = none

-- What `download` writes to the destination, and its result.
pub record Decrypted (F : Foreign) : Type 0 where
  pub result : Result (StorageError F) (Unit {0})
  pub written : Text

module _ {F : Foreign} (aead : Aead) where
  module _ {W : Type 0} (read : W → Result (StorageError F) Text × W) where
    abbrev pub Written : Type 0
    Written = Option (Result (StorageError F) Text × W)

    abbrev pub prefixed : Text → Written → Written
    prefixed t none = none
    prefixed t (some (ok s, w)) = some (ok (t ++ s), w)
    prefixed t (some (err e, w)) = some (err e, w)

    abbrev pub write_chunk : ℕ → Option Text → W → Written → Written
    write_chunk is_last none w next =
        some (err (provider (codes "Encryption failed: " ++ aead.error_text) none), w)
    write_chunk is_last (some ciphertext) w next =
        if is_last == 1
        then some (ok (frame ciphertext is_last), w)
        else prefixed (frame ciphertext is_last) next

    module _ (file_key : aead.Key) (base_nonce : Text) (file_size : ℕ) where
      abbrev pub flag_of : ℕ → ℕ
      flag_of total_read = if leb file_size total_read then 1 else 0

      abbrev pub on_read : ℕ → ℕ → Result (StorageError F) Text → W → (ℕ → Written) → Written
      on_read chunk_index total_read (err e) w next = some (err e, w)
      on_read chunk_index total_read (ok chunk) w next =
          let total = total_read + length chunk in
          let is_last = flag_of total in
          write_chunk is_last
            (aead.encrypt file_key (nonce_of base_nonce chunk_index) (aad_of chunk_index is_last)
              chunk)
            w (next total)

      -- The loop of `upload`. `none`: the fuel ran out.
      unfoldable pub encrypt_chunks : ℕ → ℕ → ℕ → W → Written
      encrypt_chunks zero chunk_index total_read w = none
      encrypt_chunks (suc fuel) chunk_index total_read w =
          let (chunk, w') = read w in
          on_read chunk_index total_read chunk w'
            (λ total. encrypt_chunks fuel (next_index chunk_index) total w')

    -- What `upload` writes to the file that it hands on.
    unfoldable pub encrypt_file : ℕ → Text → Text → ℕ → W → Written
    unfolding encrypt_chunks
    encrypt_file fuel salt base_nonce file_size w =
        prefixed (header salt base_nonce)
          (encrypt_chunks (aead.derive_file_key salt) base_nonce file_size fuel 0 0 w)

  abbrev pub stopped : Result (StorageError F) (Unit {0}) → Option (Decrypted F)
  stopped r = some (record { result = r; written = [] })

  abbrev pub wrote : Text → Option (Decrypted F) → Option (Decrypted F)
  wrote p none = none
  wrote p (some d) = some (record d { written = p ++ d.written })

  abbrev pub decryption_failed : Result (StorageError F) (Unit {0})
  decryption_failed = err (provider (codes "Decryption failed: " ++ aead.error_text) none)

  module _ (decimal : ℕ → Text) (eof : F.IoError) where
    module _ (file_key : aead.Key) (base_nonce : Text) where
      abbrev pub on_plain :
          ℕ → Text → Option Text → (Text → Option (Decrypted F)) → Option (Decrypted F)
      on_plain is_last rest none next = stopped decryption_failed
      on_plain is_last rest (some plaintext) next =
          wrote plaintext (if is_last == 1 then stopped (ok tt) else next rest)

      abbrev pub on_body :
          ℕ → ℕ → Option (Text × Text) → (Text → Option (Decrypted F)) → Option (Decrypted F)
      on_body chunk_index is_last none next = stopped (err (io eof))
      on_body chunk_index is_last (some (cipher_buf, rest)) next =
          on_plain is_last rest
            (aead.decrypt file_key (nonce_of base_nonce chunk_index) (aad_of chunk_index is_last)
              cipher_buf)
            next

      abbrev pub on_flag : ℕ → ℕ → Text → (Text → Option (Decrypted F)) → Option (Decrypted F)
      on_flag chunk_index chunk_len [] next = stopped (err (io eof))
      on_flag chunk_index chunk_len (is_last ∷ rest) next =
          on_body chunk_index is_last (read_exact chunk_len rest) next

      -- The end of the file in place of a length ends the loop.
      abbrev pub on_len :
          ℕ → Option (ℕ × Text) → (Text → Option (Decrypted F)) → Option (Decrypted F)
      on_len chunk_index none next = stopped (ok tt)
      on_len chunk_index (some (chunk_len, rest)) next = on_flag chunk_index chunk_len rest next

      -- The loop of `download`. `none`: the fuel ran out.
      unfoldable pub decrypt_chunks : ℕ → ℕ → Text → Option (Decrypted F)
      unfolding read_exact
      decrypt_chunks zero chunk_index bytes = none
      decrypt_chunks (suc fuel) chunk_index bytes =
          on_len chunk_index (read_u32 bytes) (decrypt_chunks fuel (next_index chunk_index))

    abbrev pub decrypt_vault : ℕ → Text → Option (Decrypted F)
    decrypt_vault fuel [] = stopped (err (io eof))
    decrypt_vault fuel (version ∷ rest) =
        if version == 1
        then decrypt_chunks (aead.derive_file_key (take 16 rest)) (take 8 (drop 16 rest)) fuel 0
            (drop 24 rest)
        else stopped
            (err (provider (codes "Unsupported encrypted version: " ++ decimal version) none))

    abbrev legacy_plain : Option Text → Option (Decrypted F)
    legacy_plain none = stopped decryption_failed
    legacy_plain (some plaintext) = some (record { result = ok tt; written = plaintext })

    abbrev decrypt_legacy : Text → Option (Decrypted F)
    decrypt_legacy payload =
        if ltb (length payload) 12
        then stopped (err (provider (codes "Invalid encrypted file: too short") none))
        else legacy_plain (aead.decrypt aead.legacy_key (take 12 payload) [] (drop 12 payload))

    -- `download`, once the encrypted file is there.
    unfoldable pub decrypt_file : ℕ → Text → Option (Decrypted F)
    unfolding decrypt_chunks text_eq
    decrypt_file fuel enc =
        if leb 29 (length enc) && text_eq (take 4 enc) magic
        then decrypt_vault fuel (drop 4 enc)
        else decrypt_legacy enc

-- `div_ceil`
abbrev div_ceil : ℕ → ℕ → ℕ
div_ceil n d = (n + (d - 1)) / d

-- The size that a listing gives for an encrypted file of a size.
unfoldable pub plain_size : ℕ → ℕ
plain_size size = if leb 29 size then size - (29 + div_ceil (size - 29) 65557 * 21) else size - 28

abbrev plain_item : StorageItem → StorageItem
plain_item item = if item.is_dir then item else record item { size = plain_size item.size }

abbrev plain_items : List StorageItem → List StorageItem
plain_items [] = []
plain_items (item ∷ items) = plain_item item ∷ plain_items items

abbrev plain_listing :
    {F : Foreign}
    → Result (StorageError F) (List StorageItem)
    → Result (StorageError F) (List StorageItem)
plain_listing (ok items) = ok (plain_items items)
plain_listing (err e) = err e

unfoldable pub list_encrypted :
    {F : Foreign} {W Session : Type 0} → Backend F W Session → Text → Call F W (List StorageItem)
unfolding plain_size
list_encrypted inner remote_path w = let (r, w') = inner.list remote_path w in (plain_listing r, w')
