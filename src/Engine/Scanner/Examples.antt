-- ===== src/Engine/Scanner/Examples.antt =====
-- A remote tree of one folder with a file, and a local directory with one file.
use cloud_sync_lib.Base.{ℕ, ◌<◌, ◌≡◌, ap, false, none, some, true, List, [], ◌∷◌, arith}
use cloud_sync_lib.Base.Text.{Text, codes}
use cloud_sync_lib.Base.Dict.{Dict}
use cloud_sync_lib.Storage.Errors.{Foreign, StorageError, Result, ok, err}
use cloud_sync_lib.Engine.Filter.{FileFilter}
use cloud_sync_lib.Engine.Scanner.{ScannedItem, StorageItem, scan_remote}
use cloud_sync_lib.Engine.Scanner.Kept.{items_size}
use cloud_sync_lib.Engine.Scanner.Local.{DirEntry, scan_local}
use cloud_sync_lib.Engine.Scanner.LocalTotal.{entries_size, IsScan, scan_local_total}
use cloud_sync_lib.Engine.Scanner.Remote.{IsScanned, scan_remote_total}

abbrev foreign : Foreign
foreign = record {
  IoError = Unit;
  HttpError = Unit;
  is_connect = λ e. true;
  is_timeout = λ e. false;
  is_request = λ e. false;
}

abbrev folder : StorageItem
folder = record {
  path = codes "docs";
  size = 0;
  modified = 5;
  is_dir = true;
  checksum = none;
  permissions = none;
}

abbrev file : StorageItem
file = record folder { path = codes "docs/a"; size = 40; is_dir = false }

abbrev listing : Text → Result (StorageError foreign) (List StorageItem)
listing [] = ok (folder ∷ [])
listing (a ∷ p) = ok (file ∷ [])

abbrev size : Text → ℕ
size [] = 2
size (a ∷ p) = 1

abbrev items_of : Result (StorageError foreign) (List StorageItem) → List StorageItem
items_of (ok items) = items
items_of (err e) = []

listing_falls :
    (q : Text) (items : List StorageItem) → listing q ≡ ok items → items_size size items < size q
listing_falls [] items e =
    let i : 1 ≡ items_size size items = ap (λ r. items_size size (items_of r)) e in omega arith
listing_falls (a ∷ p) items e =
    let i : 0 ≡ items_size size items = ap (λ r. items_size size (items_of r)) e in omega arith

size_positive : (q : Text) → 0 < size q
size_positive [] = omega arith
size_positive (a ∷ p) = omega arith

abbrev filter : FileFilter
filter = record {
  is_ignored = λ p d. false;
  selective_sync = some (codes "docs" ∷ []);
  min_size = none;
  max_size = some 100;
}

scan_remote_total_example :
    (r : Result (StorageError foreign) (Dict ScannedItem)) × (scan_remote listing 3 filter ≡ some r)
    × IsScanned listing filter r
scan_remote_total_example =
    scan_remote_total listing filter size
      (record { positive = size_positive; falls = listing_falls }) 3 (omega arith)

abbrev local_file : DirEntry
local_file = record {
  path = codes "/w/docs/a";
  metadata = some (record { len = 40; modified = some 5; is_dir = false; permissions = none });
}

abbrev read_dir : Text → Result Unit (List (Result Unit DirEntry))
read_dir dir = ok (ok local_file ∷ [])

abbrev entries_of : Result Unit (List (Result Unit DirEntry)) → List (Result Unit DirEntry)
entries_of (ok entries) = entries
entries_of (err e) = []

read_dir_falls :
    (dir : Text) (entries : List (Result Unit DirEntry))
    → read_dir dir ≡ ok entries
    → entries_size (λ p. 1) entries < 1
read_dir_falls dir entries e =
    let i : 0 ≡ entries_size (λ p. 1) entries = ap (λ r. entries_size (λ p. 1) (entries_of r)) e in
    omega arith

scan_local_total_example :
    (r : Result Unit (Dict ScannedItem)) × (scan_local (λ p. true) read_dir filter (codes "/w") 2
      ≡ some r)
    × IsScan (λ p. 1) (λ p. true) read_dir filter (codes "/w") r
scan_local_total_example =
    scan_local_total (λ p. 1) (λ p. true) read_dir filter (codes "/w")
      (record { falls = read_dir_falls }) 2 (omega arith)
