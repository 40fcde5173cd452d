-- ===== src/Engine/Rename.antt =====
-- crates/cloud_sync_daemon/src/engine/rename_detector.rs
pub mod Take
pub mod Detected
pub mod Examples
use cloud_sync_lib.Base.{
  ℕ, zero, suc, ◌+◌, Bool, false, ◌&&◌, ◌||◌, Option, none, some, List, [], ◌∷◌, ◌++◌, ltb, ◌==◌,
  if◌then◌else◌,
}
use cloud_sync_lib.Base.Text.{Text, text_eq, file_name}

pub record CandidateItem : Type 0 where
  pub rel_path : Text
  pub size : ℕ
  pub checksum : Option Text

pub record DetectedMove : Type 0 where
  pub source : Text
  pub target : Text
  pub size : ℕ

-- Both present and equal.
unfoldable pub same_some : Option Text → Option Text → Bool
unfolding text_eq
same_some none b = false
same_some (some a) none = false
same_some (some a) (some b) = text_eq a b

unfoldable pub size_matches : CandidateItem → CandidateItem → Bool
size_matches del add = del.size == add.size && ltb 0 del.size

unfoldable pub checksum_matches : CandidateItem → CandidateItem → Bool
unfolding same_some
checksum_matches del add = same_some del.checksum add.checksum

unfoldable pub filename_matches : CandidateItem → CandidateItem → Bool
unfolding same_some file_name
filename_matches del add = same_some (file_name del.rel_path) (file_name add.rel_path)

unfoldable pub matches : CandidateItem → CandidateItem → Bool
unfolding size_matches checksum_matches filename_matches
matches del add = size_matches del add && (checksum_matches del add || filename_matches del add)

-- The inner loop: the index of the first addition that matches.
unfoldable pub matched_idx : CandidateItem → ℕ → List CandidateItem → Option ℕ
unfolding matches
matched_idx del idx [] = none
matched_idx del idx (add ∷ adds) =
    if matches del add then some idx else matched_idx del (idx + 1) adds

abbrev keep_head :
    CandidateItem
    → Option (CandidateItem × List CandidateItem)
    → Option (CandidateItem × List CandidateItem)
keep_head a none = none
keep_head a (some (b, rest)) = some (b, a ∷ rest)

-- `Vec::remove`; `none` stands for its panic out of range.
unfoldable pub remove_at : ℕ → List CandidateItem → Option (CandidateItem × List CandidateItem)
remove_at i [] = none
remove_at zero (a ∷ adds) = some (a, adds)
remove_at (suc i) (a ∷ adds) = keep_head a (remove_at i adds)

pub record Detection : Type 0 where
  pub moves : List DetectedMove
  pub unmatched_deletions : List CandidateItem
  pub unmatched_additions : List CandidateItem

abbrev take_match :
    CandidateItem → Option (CandidateItem × List CandidateItem) → Detection → Option Detection
take_match del none d = none
take_match del (some (add, rest)) d = some (record d {
  moves = d.moves ++ record { source = del.rel_path; target = add.rel_path; size = del.size } ∷ [];
  unmatched_additions = rest;
})

-- The body of the outer loop.
unfoldable pub detect_one : CandidateItem → Detection → Option Detection
unfolding matched_idx remove_at
detect_one del d = elim (matched_idx del 0 d.unmatched_additions) [
  | some idx ↦ take_match del (remove_at idx d.unmatched_additions) d
  | none ↦ some (record d { unmatched_deletions = d.unmatched_deletions ++ del ∷ [] })
]

abbrev detect_rest : Option Detection → (Detection → Option Detection) → Option Detection
detect_rest none k = none
detect_rest (some d) k = k d

unfoldable pub detect_loop : List CandidateItem → Detection → Option Detection
unfolding detect_one
detect_loop [] d = some d
detect_loop (del ∷ dels) d = detect_rest (detect_one del d) (detect_loop dels)

unfoldable pub detect_moves : List CandidateItem → List CandidateItem → Option Detection
unfolding detect_loop
detect_moves deletions additions =
    detect_loop deletions
      (record { moves = []; unmatched_deletions = []; unmatched_additions = additions })
