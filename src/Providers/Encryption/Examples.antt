-- ===== src/Providers/Encryption/Examples.antt =====
-- A cipher that adds a tag of zeros, and readers that take a number of bytes at a time.
use cloud_sync_lib.Providers.Samples.{foreign}
use cloud_sync_lib.Base.{
  min, ℕ, zero, suc, ◌-◌, ◌≤◌, ◌<◌, ◌≡◌, refl, sym, ap, some, [], ◌∷◌, ◌++◌, arith,
}
use cloud_sync_lib.Base.Lists.{length, length-append}
use cloud_sync_lib.Base.Slices.{take, drop, take-append, take-drop, length-take-min}
use cloud_sync_lib.Base.Text.{Text, codes}
use cloud_sync_lib.Storage.Errors.{StorageError, Result, ok}
use cloud_sync_lib.Providers.Encryption.{Aead, encrypt_file, decrypt_file, plain_size}
use cloud_sync_lib.Providers.Encryption.Frames.{Seals}
use cloud_sync_lib.Providers.Encryption.RoundTrip.{IsReader, decrypt_file-encrypt_file}
use cloud_sync_lib.Providers.Encryption.Sizes.{plain_size-encrypt_file}

abbrev zeros : ℕ → Text
zeros zero = []
zeros (suc n) = 0 ∷ zeros n

abbrev tag : Text
tag = zeros 16

abbrev toy : Aead
toy = record {
  Key = Unit;
  derive_file_key = λ salt. tt;
  legacy_key = tt;
  encrypt = λ k n a m. some (m ++ tag);
  decrypt = λ k n a c. some (take (length c - 16) c);
  error_text = codes "aead::Error";
}

take_tagged : (m : Text) → take (length (m ++ tag) - 16) (m ++ tag) ≡ m
take_tagged m = take-append (length (m ++ tag) - 16) m tag (omega (arith, length-append m tag))

toy_seals : Seals toy
toy_seals = record {
  seal = λ k n a m. m ++ tag;
  encrypts = λ k n a m. refl;
  decrypts = λ k n a m. ap some (take_tagged m);
  tagged = λ k n a m. length-append m tag;
}

abbrev read_up_to : ℕ → Text → Result (StorageError foreign) Text × Text
read_up_to n w = (ok (take n w), drop n w)

abbrev rest : Text → Text
rest w = w

read_up_to-IsReader : (n : ℕ) → 0 < n → n ≤ 65536 → IsReader (read_up_to n) rest
read_up_to-IsReader n h h' = record {
  piece = take n;
  next = drop n;
  reads = λ w. refl;
  splits = λ w. sym (take-drop n w);
  moves = λ w m. omega (arith, m, length-take-min n w);
  bounded = λ w. omega (arith, length-take-min n w);
}

fills_up_to :
    (n : ℕ) (h : 0 < n) (h' : n ≤ 65536) (w : Text)
    → length ((read_up_to-IsReader n h h').piece w) ≡ min n (length w)
unfolding read_up_to-IsReader
fills_up_to n h h' w = length-take-min n w

abbrev decimal : ℕ → Text
decimal n = codes "2"

abbrev salt : Text
salt = codes "0123456789abcdef"

abbrev nonce : Text
nonce = codes "01234567"

abbrev file : Text
file = codes "bytes"

abbrev by_two : IsReader (read_up_to 2) rest
by_two = read_up_to-IsReader 2 (omega arith) (omega arith)

abbrev filling : IsReader (read_up_to 65536) rest
filling = read_up_to-IsReader 65536 (omega arith) (omega arith)

decrypt_file-encrypt_file_example :
    (vault : Text) × (w' : Text) × (encrypt_file toy (read_up_to 2) 6 salt nonce 5 file
      ≡ some (ok vault, w'))
    × (decrypt_file {F = foreign} toy decimal tt (suc (length vault)) vault
        ≡ some (record { result = ok tt; written = file }))
decrypt_file-encrypt_file_example =
    decrypt_file-encrypt_file toy toy_seals decimal tt (read_up_to 2) rest by_two salt nonce file 6
      refl refl (omega arith)

plain_size-encrypt_file_example :
    (vault : Text) × (w' : Text) × (encrypt_file toy (read_up_to 65536) 6 salt nonce 5 file
      ≡ some (ok vault, w'))
    × (plain_size (length vault) ≡ 5)
plain_size-encrypt_file_example =
    plain_size-encrypt_file toy toy_seals decimal tt (read_up_to 65536) rest filling
      (fills_up_to 65536 (omega arith) (omega arith)) salt nonce file 6 refl refl (omega arith)
