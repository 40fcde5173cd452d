-- ===== src/Engine/Scanner/Kept.antt =====
-- The remote scan of crates/cloud_sync_daemon/src/engine/scanner.rs ends on a finite tree and
-- returns nothing that the filter refuses.
use cloud_sync_lib.Base.{
  ℕ, ◌+◌, ◌≤◌, ◌<◌, ◌≡◌, refl, sym, ap, ◌∙◌, ◌⊎◌, inl, inr, Bool, true, false, ◌||◌, not, List, [],
  ◌∷◌, arith, if◌then◌else◌,
}
use cloud_sync_lib.Base.Tests.{Bool-cases}
use cloud_sync_lib.Base.Lists.{All}
use cloud_sync_lib.Base.Text.{Text, text_eq}
use cloud_sync_lib.Base.Dict.{Dict, insert, remove}
use cloud_sync_lib.Storage.Errors.{Foreign, StorageError, Result, ok}
use cloud_sync_lib.Engine.Filter.{
  FileFilter, is_unsafe_path, is_state_file, is_path_selected, is_size_allowed,
}
use cloud_sync_lib.Engine.Scanner.{
  ScannedItem, StorageItem, Found, is_passed_over, dir_of, file_of, scan_item, scan_items,
}

module _ {V : Type 0} (P : Text × V → Type 0) where
  All-remove : (k : Text) (m : Dict V) → All P m → All P (remove k m)
  unfolding remove
  All-remove k [] h = tt
  All-remove k ((j, v) ∷ m) h = elim (Bool-cases (text_eq j k)) [
    | inl i ↦ rw i (All-remove k m h.1)
    | inr i ↦ rw i (h.0, All-remove k m h.1)
  ]

  pub All-insert : (k : Text) (v : V) (m : Dict V) → P (k, v) → All P m → All P (insert k v m)
  unfolding insert
  All-insert k v m p h = (p, All-remove k m h)

-- What the filter lets into the map.
pub record IsKept (filter : FileFilter) (entry : Text × ScannedItem) : Type 0 where
  pub safe : is_unsafe_path entry.0 ≡ false
  pub no_state : is_state_file entry.0 ≡ false
  pub not_ignored : filter.is_ignored entry.0 entry.1.is_dir ≡ false
  pub selected : is_path_selected filter entry.0 ≡ true
  pub sized : (entry.1.is_dir ≡ true) ⊎ (is_size_allowed filter entry.1.size ≡ true)

passed_cases :
    (a b c d : Bool)
    → (a || b || c || not d) ≡ false
    → (a ≡ false) × (b ≡ false) × (c ≡ false) × (d ≡ true)
passed_cases true b c d h = ground arith
passed_cases false true c d h = ground arith
passed_cases false false true d h = ground arith
passed_cases false false false true h = (refl, refl, refl, refl)
passed_cases false false false false h = ground arith

-- What a listing adds to the work that is left: the sizes of its directories.
module _ (size : Text → ℕ) where
  abbrev pub queue_size : List Text → ℕ
  queue_size [] = 0
  queue_size (q ∷ qs) = size q + queue_size qs

  abbrev pub item_size : StorageItem → ℕ
  item_size item = if item.is_dir then size item.path else 0

  abbrev pub items_size : List StorageItem → ℕ
  items_size [] = 0
  items_size (item ∷ rest) = item_size item + items_size rest

module _ (filter : FileFilter) where
  kept :
      (item : StorageItem) (s : ScannedItem)
      → is_passed_over filter item ≡ false
      → item.is_dir ≡ s.is_dir
      → (s.is_dir ≡ true) ⊎ (is_size_allowed filter s.size ≡ true)
      → IsKept filter (item.path, s)
  unfolding is_passed_over
  kept item s h e z =
      let (a, b, c, d) =
        passed_cases (is_unsafe_path item.path) (is_state_file item.path)
          (filter.is_ignored item.path item.is_dir) (is_path_selected filter item.path) h in
      record {
        safe = a;
        no_state = b;
        not_ignored = ap (filter.is_ignored item.path) (sym e) ∙ c;
        selected = d;
        sized = z;
      }

  scan_item-IsKept :
      (item : StorageItem) (g : Found)
      → All (IsKept filter) g.files
      → All (IsKept filter) (scan_item filter item g).files
  unfolding scan_item
  scan_item-IsKept item g h = elim (Bool-cases (is_passed_over filter item)) [
    | inl i ↦ rw i h
    | inr i ↦ elim (Bool-cases item.is_dir) [
      | inl d ↦
          rw (i, d)
            (All-insert (IsKept filter) item.path (dir_of item) g.files
              (kept item (dir_of item) i d (inl refl)) h)
      | inr d ↦ elim (Bool-cases (is_size_allowed filter item.size)) [
        | inl z ↦
            rw (i, d, z)
              (All-insert (IsKept filter) item.path (file_of item) g.files
                (kept item (file_of item) i d (inr z)) h)
        | inr z ↦ rw (i, d, z) h
      ]
    ]
  ]

  pub scan_items-IsKept :
      (items : List StorageItem) (g : Found)
      → All (IsKept filter) g.files
      → All (IsKept filter) (scan_items filter items g).files
  unfolding scan_items
  scan_items-IsKept [] g h = h
  scan_items-IsKept (item ∷ rest) g h =
      scan_items-IsKept rest (scan_item filter item g) (scan_item-IsKept item g h)

  module _ (size : Text → ℕ) where
    queue_size-scan_item :
        (item : StorageItem) (g : Found)
        → queue_size size (scan_item filter item g).queue
          ≤ item_size size item + queue_size size g.queue
    unfolding scan_item
    queue_size-scan_item item g = elim (Bool-cases (is_passed_over filter item)) [
      | inl i ↦ rw i (omega arith)
      | inr i ↦ elim (Bool-cases item.is_dir) [
        | inl d ↦ rw (i, d) (omega arith)
        | inr d ↦ elim (Bool-cases (is_size_allowed filter item.size)) [
          | inl z ↦ rw (i, d, z) (omega arith)
          | inr z ↦ rw (i, d, z) (omega arith)
        ]
      ]
    ]

    pub queue_size-scan_items :
        (items : List StorageItem) (g : Found)
        → queue_size size (scan_items filter items g).queue
          ≤ items_size size items + queue_size size g.queue
    unfolding scan_items
    queue_size-scan_items [] g = omega arith
    queue_size-scan_items (item ∷ rest) g =
        omega
          (arith, queue_size-scan_items rest (scan_item filter item g), queue_size-scan_item item g)

-- A finite remote tree: every directory has a positive size, above the sizes of the directories
-- that its listing names taken together.
pub record IsTree {F : Foreign} (list : Text → Result (StorageError F) (List StorageItem))
    (size : Text → ℕ) : Type 0 where
  pub positive : (q : Text) → 0 < size q
  pub falls :
      (q : Text) (items : List StorageItem) → list q ≡ ok items → items_size size items < size q
