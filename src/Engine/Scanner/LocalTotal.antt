-- ===== src/Engine/Scanner/LocalTotal.antt =====
-- The whole local scan of crates/cloud_sync_daemon/src/engine/scanner.rs.
use cloud_sync_lib.Base.{
  ℕ, zero, suc, ◌+◌, ◌≤◌, ◌<◌, ◌≡◌, ap, sym, ◌∙◌, refl, inl, inr, Bool, false, Option, none, some,
  List, [], ◌∷◌, arith, Bool-cases, if◌then◌else◌,
}
use cloud_sync_lib.Base.Lists.{All}
use cloud_sync_lib.Base.Text.{Text, replace, strip_prefix}
use cloud_sync_lib.Base.Dict.{Dict}
use cloud_sync_lib.Storage.Errors.{Result, ok, err}
use cloud_sync_lib.Engine.Filter.{
  FileFilter, is_unsafe_path, is_state_file, is_path_selected, is_size_allowed,
}
use cloud_sync_lib.Engine.Scanner.{ScannedItem, Found}
use cloud_sync_lib.Engine.Scanner.Kept.{IsKept, queue_size, All-insert}
use cloud_sync_lib.Engine.Scanner.Local.{
  Metadata, DirEntry, dir_item, file_item, scan_metadata, scan_relative, scan_entry, scan_entries,
  after_read_dir, scan_dirs, scan_local,
}

module _ (size : Text → ℕ) where
  abbrev pub metadata_size : Text → Option Metadata → ℕ
  metadata_size path none = 0
  metadata_size path (some meta) = if meta.is_dir then size path else 0

  -- What the entries of a directory add to the work that is left: the sizes of its directories.
  abbrev pub entries_size : {E : Type 0} → List (Result E DirEntry) → ℕ
  entries_size [] = 0
  entries_size (err e ∷ rest) = entries_size rest
  entries_size (ok entry ∷ rest) = metadata_size entry.path entry.metadata + entries_size rest

  module _ (filter : FileFilter) where
    -- The entries are kept, and the queue grows by no more than a size.
    pub record Grows (n : ℕ) (g g' : Found) : Type 0 where
      pub kept : All (IsKept filter) g'.files
      pub queued : queue_size size g'.queue ≤ n + queue_size size g.queue

    unchanged : (n : ℕ) (g : Found) → All (IsKept filter) g.files → Grows n g g
    unchanged n g h = record { kept = h; queued = omega arith }

    scan_metadata-Grows :
        (path rel : Text) (o : Option Metadata) (g : Found)
        → is_unsafe_path rel ≡ false
        → is_state_file rel ≡ false
        → All (IsKept filter) g.files
        → Grows (metadata_size path o) g (scan_metadata filter path rel o g)
    unfolding scan_metadata
    scan_metadata-Grows path rel none g u s h = unchanged 0 g h
    scan_metadata-Grows path rel (some meta) g u s h =
        elim (Bool-cases (filter.is_ignored rel meta.is_dir)) [
          | inl i ↦ rw i (unchanged _ g h)
          | inr i ↦ elim (Bool-cases (is_path_selected filter rel)) [
            | inr n ↦ rw (i, n) (unchanged _ g h)
            | inl p ↦ elim (Bool-cases meta.is_dir) [
              | inl d ↦
                  rw (i, p, d)
                    (record {
                      kept =
                          All-insert (IsKept filter) rel (dir_item meta) g.files
                            (record {
                              safe = u;
                              no_state = s;
                              not_ignored = ap (filter.is_ignored rel) (sym d) ∙ i;
                              selected = p;
                              sized = inl refl;
                            })
                            h;
                      queued = omega arith;
                    })
              | inr f ↦ elim (Bool-cases (is_size_allowed filter meta.len)) [
                | inl z ↦
                    rw (i, p, f, z)
                      (record {
                        kept =
                            All-insert (IsKept filter) rel (file_item meta) g.files
                              (record {
                                safe = u;
                                no_state = s;
                                not_ignored = ap (filter.is_ignored rel) (sym f) ∙ i;
                                selected = p;
                                sized = inr z;
                              })
                              h;
                        queued = omega arith;
                      })
                | inr z ↦ rw (i, p, f, z) (unchanged 0 g h)
              ]
            ]
          ]
        ]

    scan_relative-Grows :
        (entry : DirEntry) (r : Option Text) (g : Found)
        → All (IsKept filter) g.files
        → Grows (metadata_size entry.path entry.metadata) g (scan_relative filter entry r g)
    scan_relative-Grows entry none g h = unchanged _ g h
    scan_relative-Grows entry (some rel) g h =
        elim (Bool-cases (is_unsafe_path (replace 92 b'/' rel))) [
          | inl u ↦ rw u (unchanged _ g h)
          | inr u ↦ elim (Bool-cases (is_state_file (replace 92 b'/' rel))) [
            | inl s ↦ rw (u, s) (unchanged _ g h)
            | inr s ↦
                rw (u, s)
                  (scan_metadata-Grows entry.path (replace 92 b'/' rel) entry.metadata g u s h)
          ]
        ]

  module _ {E : Type 0} (exists : Text → Bool)
      (read_dir : Text → Result E (List (Result E DirEntry))) (filter : FileFilter)
      (watch_dir : Text) where
    -- What reading a directory, or a part of it, leads to.
    abbrev Read : ℕ → Found → Result E Found → Type 0
    Read n g (ok g') = Grows filter n g g'
    Read n g (err e) = Unit

    Read-Grows :
        (m n : ℕ) (g g1 : Found) (r : Result E Found)
        → Grows filter m g g1
        → Read n g1 r
        → Read (m + n) g r
    Read-Grows m n g g1 (ok g') a b = record {
      kept = b.kept;
      queued = omega (arith, a.queued, b.queued);
    }
    Read-Grows m n g g1 (err e) a b = tt

    scan_entries-Read :
        (entries : List (Result E DirEntry)) (g : Found)
        → All (IsKept filter) g.files
        → Read (entries_size entries) g (scan_entries exists read_dir filter watch_dir entries g)
    unfolding scan_entries scan_entry
    scan_entries-Read [] g h = unchanged filter 0 g h
    scan_entries-Read (err e ∷ rest) g h = tt
    scan_entries-Read (ok entry ∷ rest) g h =
        let one = scan_relative-Grows filter entry (strip_prefix entry.path watch_dir) g h in
        Read-Grows (metadata_size entry.path entry.metadata) (entries_size rest) g
          (scan_entry filter watch_dir entry g)
          (scan_entries exists read_dir filter watch_dir rest (scan_entry filter watch_dir entry g))
          one (scan_entries-Read rest (scan_entry filter watch_dir entry g) one.kept)

    -- A finite local tree: every directory has a size above the sizes of the directories that it
    -- holds taken together.
    pub record IsDirTree : Type 0 where
      pub falls :
          (dir : Text) (entries : List (Result E DirEntry))
          → read_dir dir ≡ ok entries
          → entries_size entries < size dir

    -- A scan returns entries that are kept, or an error.
    abbrev pub IsScan : Result E (Dict ScannedItem) → Type 0
    IsScan (ok files) = All (IsKept filter) files
    IsScan (err e) = Unit

    abbrev Scans : Option (Result E (Dict ScannedItem)) → Type 0
    Scans o = (r : Result E (Dict ScannedItem)) × (o ≡ some r) × IsScan r

    module _ (tree : IsDirTree) where
      abbrev Listed : Text → Found → Result E Found → Type 0
      Listed dir g (ok g') =
          All (IsKept filter) g'.files
          × (queue_size size g'.queue < size dir + queue_size size g.queue)
      Listed dir g (err e) = Unit

      listed :
          (dir : Text) (n : ℕ) (g : Found) (r : Result E Found)
          → n < size dir
          → Read n g r
          → Listed dir g r
      listed dir n g (ok g') m a = (a.kept, omega (arith, m, a.queued))
      listed dir n g (err e) m a = tt

      after_read_dir-Listed :
          (dir : Text) (r : Result E (List (Result E DirEntry))) (g : Found)
          → read_dir dir ≡ r
          → All (IsKept filter) g.files
          → Listed dir g (after_read_dir exists read_dir filter watch_dir r g)
      unfolding after_read_dir
      after_read_dir-Listed dir (ok entries) g e h =
          listed dir (entries_size entries) g
            (scan_entries exists read_dir filter watch_dir entries g) (tree.falls dir entries e)
            (scan_entries-Read entries g h)
      after_read_dir-Listed dir (err x) g e h = tt

      continue_scan :
          (fuel : ℕ) (dir : Text) (g : Found) (a : Result E Found)
          → size dir + queue_size size g.queue < suc fuel
          → Listed dir g a
          → ((g' : Found)
              → queue_size size g'.queue < fuel
              → All (IsKept filter) g'.files
              → Scans (scan_dirs exists read_dir filter watch_dir fuel g'.queue g'.files))
          → Scans (elim a [
            | ok g' ↦ scan_dirs exists read_dir filter watch_dir fuel g'.queue g'.files
            | err e ↦ some (err e)
          ])
      continue_scan fuel dir g (ok g') m (k, l) ih = ih g' (omega arith) k
      continue_scan fuel dir g (err e) m l ih = (err e, refl, tt)

      scan_dirs_total :
          (fuel : ℕ) (queue : List Text) (files : Dict ScannedItem)
          → queue_size size queue < fuel
          → All (IsKept filter) files
          → Scans (scan_dirs exists read_dir filter watch_dir fuel queue files)
      unfolding scan_dirs
      scan_dirs_total zero queue files m h = absurd (omega arith)
      scan_dirs_total (suc fuel) [] files m h = (ok files, refl, h)
      scan_dirs_total (suc fuel) (dir ∷ rest) files m h =
          let g : Found = record { queue = rest; files = files } in
          continue_scan fuel dir g
            (after_read_dir exists read_dir filter watch_dir (read_dir dir) g) m
            (after_read_dir-Listed dir (read_dir dir) g refl h)
            (λ g' l k. scan_dirs_total fuel g'.queue g'.files l k)

      -- On a finite local tree, with more fuel than the size of the watched directory, the scan ends.
      -- It returns an error of the file system, or entries that are safe, no state files, not ignored,
      -- selected and, for files, of an allowed size.
      pub scan_local_total :
          (fuel : ℕ)
          → size watch_dir < fuel
          → (r : Result E (Dict ScannedItem)) × (scan_local exists read_dir filter watch_dir fuel
              ≡ some r)
            × IsScan r
      unfolding scan_local
      scan_local_total fuel m = elim (Bool-cases (exists watch_dir)) [
        | inl yes' ↦ rw yes' (scan_dirs_total fuel (watch_dir ∷ []) [] (omega arith) tt)
        | inr no' ↦ rw no' (ok [], refl, tt)
      ]
