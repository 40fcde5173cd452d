-- ===== src/Providers/Encryption/Header.antt =====
-- The header of the vault of crates/cloud_sync_lib/src/providers/encryption.rs, read back.
use mathlib.Core.List.{append_assoc}
use cloud_sync_lib.Base.{ℕ, ◌≡◌, refl, ap, ◌∙◌, true, ◌++◌, arith, leb}
use cloud_sync_lib.Base.Lists.{length, length-append}
use cloud_sync_lib.Base.Slices.{take, drop, take-append, drop-append}
use cloud_sync_lib.Base.Text.{Text, text_eq}
use cloud_sync_lib.Storage.Errors.{Foreign}
use cloud_sync_lib.Providers.Encryption.{Aead, header, decrypt_chunks, decrypt_file}

pub length-header :
    (salt base : Text) → length salt ≡ 16 → length base ≡ 8 → length (header salt base) ≡ 29
length-header salt base hs hb = omega (arith, length-append salt base)

module _ {F : Foreign} (aead : Aead) (decimal : ℕ → Text) (eof : F.IoError) where
  -- What follows a header is read with the key of its salt and with its nonce.
  pub decrypt_file-header :
      (fuel : ℕ) (salt base cs : Text)
      → length salt ≡ 16
      → length base ≡ 8
      → decrypt_file {F = F} aead decimal eof fuel (header salt base ++ cs)
        ≡ decrypt_chunks aead decimal eof (aead.derive_file_key salt) base fuel 0 cs
  unfolding decrypt_file text_eq
  decrypt_file-header fuel salt base cs hs hb =
      let long = length-append (header salt base) cs in
      let all : leb 29 (length (header salt base ++ cs)) ≡ true =
        ground (arith, long, length-header salt base hs hb) in
      let body : (salt ++ base) ++ cs ≡ salt ++ (base ++ cs) = append_assoc salt base cs in
      let whole : Text = (salt ++ base) ++ cs in
      let salted : take 16 whole ≡ salt = ap (take 16) body ∙ take-append 16 salt (base ++ cs) hs in
      let after : drop 16 whole ≡ base ++ cs =
        ap (drop 16) body ∙ drop-append 16 salt (base ++ cs) hs in
      let based : take 8 (drop 16 whole) ≡ base = ap (take 8) after ∙ take-append 8 base cs hb in
      let rest : drop 24 whole ≡ cs =
        drop-append 24 (salt ++ base) cs (omega (arith, length-append salt base)) in
      rw all (rw (salted, based, rest) refl)
