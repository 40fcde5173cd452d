-- ===== src/Providers/Encryption/Frames.antt =====
-- One frame of the vault of crates/cloud_sync_lib/src/providers/encryption.rs, written and read back.
use cloud_sync_lib.Base.{
  ℕ, suc, ◌+◌, ◌*◌, ◌/◌, ◌%◌, ◌^◌, ◌≤◌, ◌<◌, ◌≡◌, refl, ap, ◌∙◌, Option, some, [], ◌∷◌, ◌++◌, arith,
  ◌==◌, if◌then◌else◌,
}
use cloud_sync_lib.Base.Lists.{length}
use cloud_sync_lib.Base.Text.{Text}
use cloud_sync_lib.Providers.Encryption.{
  on_len, on_plain, on_body, read_u32, wrote, stopped, Decrypted, next_index, decrypt_chunks, frame,
  nonce_of, aad_of, Aead, be32, read_exact,
}
use cloud_sync_lib.Storage.Errors.{Foreign, ok}

-- What AES-256-GCM does: it seals every message, opens what it sealed under the same key, nonce and
-- data, and adds a tag of 16 bytes.
pub record Seals (aead : Aead) : Type 0 where
  pub seal : aead.Key → Text → Text → Text → Text
  pub encrypts : (k : aead.Key) (n a m : Text) → aead.encrypt k n a m ≡ some (seal k n a m)
  pub decrypts : (k : aead.Key) (n a m : Text) → aead.decrypt k n a (seal k n a m) ≡ some m
  pub tagged : (k : aead.Key) (n a m : Text) → length (seal k n a m) ≡ length m + 16

u32-be32 :
    (n : ℕ)
    → n < 2 ^ 32
    → n / 2 ^ 24 % 256 * 2 ^ 24 + n / 2 ^ 16 % 256 * 2 ^ 16 + n / 2 ^ 8 % 256 * 2 ^ 8 + n % 256 ≡ n
u32-be32 n h = omega arith

pub read_u32-be32 : (n : ℕ) (rest : Text) → n < 2 ^ 32 → read_u32 (be32 n ++ rest) ≡ some (n, rest)
read_u32-be32 n rest h = ap (λ k. some (k, rest)) (u32-be32 n h)

pub read_exact-append :
    (front rest : Text) → read_exact (length front) (front ++ rest) ≡ some (front, rest)
unfolding read_exact
read_exact-append [] rest = refl
read_exact-append (b ∷ front) rest = rw (read_exact-append front rest) refl

-- The length of a ciphertext fits its four bytes.
pub fits : (c m : Text) → length c ≡ length m + 16 → length m ≤ 65536 → length c % 2 ^ 32 ≡ length c
fits c m e h = omega arith

module _ (aead : Aead) (seals : Seals aead) (key : aead.Key) (base : Text) where
  abbrev pub sealed : ℕ → ℕ → Text → Text
  sealed idx flag m = seals.seal key (nonce_of base idx) (aad_of idx flag) m

  abbrev pub framed : ℕ → ℕ → Text → Text
  framed idx flag m = frame (sealed idx flag m) flag

  pub length-framed : (idx flag : ℕ) (m : Text) → length (framed idx flag m) ≡ length m + 21
  length-framed idx flag m = omega (arith, seals.tagged key (nonce_of base idx) (aad_of idx flag) m)

  -- The length and the ciphertext are read back.
  read_u32-framed :
      (idx flag : ℕ) (m rest : Text)
      → length m ≤ 65536
      → read_u32 (framed idx flag m ++ rest)
        ≡ some (length (sealed idx flag m), flag ∷ (sealed idx flag m ++ rest))
  read_u32-framed idx flag m rest h =
      let tagged = seals.tagged key (nonce_of base idx) (aad_of idx flag) m in
      let kept = fits (sealed idx flag m) m tagged h in
      read_u32-be32 _ (flag ∷ (sealed idx flag m ++ rest)) (omega (arith, kept, tagged))
      ∙ ap (λ (n : ℕ). some (n, flag ∷ (sealed idx flag m ++ rest))) kept

  module _ {F : Foreign} (decimal : ℕ → Text) (eof : F.IoError) where
    abbrev going_on : ℕ → ℕ → Text → Option (Decrypted F)
    going_on fuel idx = decrypt_chunks aead decimal eof key base fuel (next_index idx)

    -- A frame read back is its message, and the flag decides whether the loop goes on.
    pub decrypt_chunks-framed :
        (fuel idx flag : ℕ) (m rest : Text)
        → length m ≤ 65536
        → decrypt_chunks aead decimal eof key base (suc fuel) idx (framed idx flag m ++ rest)
          ≡ wrote aead m (if flag == 1 then stopped aead (ok tt) else going_on fuel idx rest)
    unfolding decrypt_chunks
    decrypt_chunks-framed fuel idx flag m rest h =
        ap (λ x. on_len aead decimal eof key base idx x (going_on fuel idx))
          (read_u32-framed idx flag m rest h)
        ∙ ap (λ x. on_body aead decimal eof key base idx flag x (going_on fuel idx))
            (read_exact-append (sealed idx flag m) rest)
        ∙ ap (λ x. on_plain aead decimal eof key base flag rest x (going_on fuel idx))
            (seals.decrypts key (nonce_of base idx) (aad_of idx flag) m)
