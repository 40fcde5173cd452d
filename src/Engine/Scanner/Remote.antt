-- ===== src/Engine/Scanner/Remote.antt =====
-- The whole remote scan of crates/cloud_sync_daemon/src/engine/scanner.rs.
use cloud_sync_lib.Base.{
  ℕ, zero, suc, ◌+◌, ◌<◌, ◌≡◌, refl, inl, inr, false, Option, some, List, [], ◌∷◌, arith,
}
use cloud_sync_lib.Base.Tests.{Bool-cases}
use cloud_sync_lib.Base.Lists.{All}
use cloud_sync_lib.Base.Text.{Text}
use cloud_sync_lib.Base.Dict.{Dict}
use cloud_sync_lib.Storage.Errors.{Foreign, StorageError, Result, ok, err, is_not_found}
use cloud_sync_lib.Engine.Filter.{FileFilter}
use cloud_sync_lib.Engine.Scanner.{
  ScannedItem, StorageItem, Found, after_list, scan_loop, scan_remote,
}
use cloud_sync_lib.Engine.Scanner.Kept.{
  IsKept, IsTree, queue_size, scan_items-IsKept, queue_size-scan_items,
}

module _ {F : Foreign} (list : Text → Result (StorageError F) (List StorageItem))
    (filter : FileFilter) where
  -- What a scan may answer: a map of entries that the filter lets through, or the error of a
  -- listing other than that the directory is gone.
  abbrev pub IsScanned : Result (StorageError F) (Dict ScannedItem) → Type 0
  IsScanned (ok files) = All (IsKept filter) files
  IsScanned (err e) = (q : Text) × (list q ≡ err e) × (is_not_found e ≡ false)

  module _ (size : Text → ℕ) (tree : IsTree list size) where
    -- What one listing does to the work that is left.
    abbrev Listed : Text → Found → Result (StorageError F) Found → Type 0
    Listed q g (ok g') =
        All (IsKept filter) g'.files × (queue_size size g'.queue < size q + queue_size size g.queue)
    Listed q g (err e) = (list q ≡ err e) × (is_not_found e ≡ false)

    after_list-Listed :
        (q : Text) (r : Result (StorageError F) (List StorageItem)) (g : Found)
        → list q ≡ r
        → All (IsKept filter) g.files
        → Listed q g (after_list list filter r g)
    unfolding after_list
    after_list-Listed q (ok items) g e h = (
      scan_items-IsKept filter items g h,
      omega (arith, queue_size-scan_items filter size items g, tree.falls q items e),
    )
    after_list-Listed q (err x) g e h = elim (Bool-cases (is_not_found x)) [
      | inl i ↦ rw i (h, omega (arith, tree.positive q))
      | inr i ↦ rw i (e, i)
    ]

    abbrev Scans : Option (Result (StorageError F) (Dict ScannedItem)) → Type 0
    Scans o = (r : Result (StorageError F) (Dict ScannedItem)) × (o ≡ some r) × IsScanned r

    continue_scan :
        (fuel : ℕ) (q : Text) (g : Found) (a : Result (StorageError F) Found)
        → size q + queue_size size g.queue < suc fuel
        → Listed q g a
        → ((g' : Found)
            → queue_size size g'.queue < fuel
            → All (IsKept filter) g'.files
            → Scans (scan_loop list fuel filter g'.queue g'.files))
        → Scans
            (elim a [ ok g' ↦ scan_loop list fuel filter g'.queue g'.files | err e ↦ some (err e) ])
    continue_scan fuel q g (ok g') m (k, l) ih = ih g' (omega arith) k
    continue_scan fuel q g (err e) m (i, n) ih = (err e, refl, (q, i, n))

    scan_loop_total :
        (fuel : ℕ) (queue : List Text) (files : Dict ScannedItem)
        → queue_size size queue < fuel
        → All (IsKept filter) files
        → Scans (scan_loop list fuel filter queue files)
    unfolding scan_loop
    scan_loop_total zero queue files m h = absurd (omega arith)
    scan_loop_total (suc fuel) [] files m h = (ok files, refl, h)
    scan_loop_total (suc fuel) (q ∷ rest) files m h =
        let g : Found = record { queue = rest; files = files } in
        continue_scan fuel q g (after_list list filter (list q) g) m
          (after_list-Listed q (list q) g refl h)
          (λ g' l k. scan_loop_total fuel g'.queue g'.files l k)

    -- On a finite remote tree, with more fuel than the size of the root, the scan ends. It returns
    -- entries that are safe, no state files, not ignored, selected and, for files, of an allowed
    -- size; or the error of one of its listings, other than that the directory is gone.
    pub scan_remote_total :
        (fuel : ℕ)
        → size [] < fuel
        → (r : Result (StorageError F) (Dict ScannedItem)) × (scan_remote list fuel filter ≡ some r)
          × IsScanned r
    unfolding scan_remote
    scan_remote_total fuel m = scan_loop_total fuel ([] ∷ []) [] (omega arith) tt
