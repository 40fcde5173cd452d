-- ===== src/Providers/Sessions/Examples.antt =====
-- A file of five bytes in chunks of two, read in full and read one byte at a time.
use mathlib.Core.Path.{subst}
use cloud_sync_lib.Base.Lists.{length}
use cloud_sync_lib.Providers.Samples.{foreign}
use cloud_sync_lib.Base.{ℕ, suc, ◌≤◌, ◌≡◌, refl, ap, Option, some, none, [], min, arith}
use cloud_sync_lib.Base.Text.{Text, codes}
use cloud_sync_lib.Storage.Errors.{StorageError, Result, ok, err}
use cloud_sync_lib.Providers.Translate.{Response, is_success}
use cloud_sync_lib.Providers.Sessions.{Request, Sent, upload_ranges}
use cloud_sync_lib.Base.Slices.{slice, slice-length_le, slice-length_self}
use cloud_sync_lib.Providers.Sessions.Covers.{Ranges, sent_body, upload_ranges_covers}
use cloud_sync_lib.Providers.Sessions.Parts.{joined, Carry, Full}
use cloud_sync_lib.Providers.Sessions.Dropbox.{Post, Posted, upload_session}
use cloud_sync_lib.Providers.Sessions.DropboxNames.{Opens}
use cloud_sync_lib.Providers.Sessions.DropboxCovers.{Offset, post_body, upload_session_covers}
use cloud_sync_lib.Providers.Sessions.Short.{IsCalm}

abbrev file : Text
file = codes "bytes"

abbrev accepted : Response
accepted = record {
  status = 202;
  retry_after = none;
  status_digits = codes "202";
  status_text = codes "202 Accepted";
  body = [];
}

-- The world counts the calls.
abbrev read_all : ℕ → ℕ → ℕ → Result (StorageError foreign) Text × ℕ
read_all offset len w = (ok (slice offset len file), suc w)

abbrev put : Request → ℕ → Result (StorageError foreign) Response × ℕ
put r w = (ok accepted, suc w)

abbrev content : Result (StorageError foreign) Text → Text
content (ok d) = d
content (err e) = []

reads :
    (o n w : ℕ) (d : Text)
    → (read_all o n w).0 ≡ ok d
    → (length d ≤ n) × (d ≡ slice o (length d) file)
reads o n w d h =
    subst (λ x. (length x ≤ n) × (x ≡ slice o (length x) file)) (ap content h)
      (slice-length_le o n file, slice-length_self o n file)

upload_ranges_covers_example :
    (s : Sent read_all put) × (upload_ranges read_all put (codes "OneDrive") is_success 2 5 6 0 0
      ≡ some s)
    × (till : ℕ) × Carry sent_body (Ranges file) file 2 0 s.requests till
    × (s.result ≡ ok tt
        → (Full sent_body (Ranges file) file 2 0 s.requests → joined sent_body s.requests ≡ file)
          × (joined sent_body s.requests ≡ file → Full sent_body (Ranges file) file 2 0 s.requests))
upload_ranges_covers_example =
    upload_ranges_covers read_all put file (codes "OneDrive") is_success 2 (omega arith) reads 6 0
      (omega arith) (omega arith)

abbrev read_one : ℕ → ℕ → ℕ → Result (StorageError foreign) Text × ℕ
read_one offset len w = (ok (slice offset (min len 1) file), suc w)

read_one-IsCalm : IsCalm read_one put is_success
read_one-IsCalm = record {
  chunk = λ o n w. slice o (min n 1) file;
  response = λ r w. accepted;
  reads = λ o n w. refl;
  at_most = λ o n w. omega (arith, slice-length_le o (min n 1) file);
  answers = λ r w. refl;
  accepted = λ r w. refl;
}

abbrev answered : Post → ℕ → Result (StorageError foreign) Response × ℕ
answered p w = (ok accepted, suc w)

abbrev session : Response → Result (StorageError foreign) (Option Text)
session r = ok (some (codes "s"))

upload_session_covers_example :
    (s : Posted read_all answered session) × (upload_session read_all answered session 2 5 6 0
      ≡ some s)
    × (till : ℕ) × Carry post_body Offset file 2 0 s.posts till
    × (s.result ≡ ok tt
        → (Full post_body Offset file 2 0 s.posts → joined post_body s.posts ≡ file)
          × (joined post_body s.posts ≡ file → Full post_body Offset file 2 0 s.posts))
    × Opens s.posts
upload_session_covers_example =
    upload_session_covers read_all answered session file 2 reads 6 0 (omega arith) (omega arith)
