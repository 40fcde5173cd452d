-- ===== src/Paths/Formats.antt =====
-- The formatting of remote paths in crates/cloud_sync_core/src/path.rs: the relative and the
-- absolute form of one path.
use cloud_sync_lib.Base.{
  ℕ, suc, ◌≤◌, ◌≡◌, refl, sym, ap, ◌∙◌, inl, inr, Bool, true, false, not, ◌||◌, Option, [], ◌∷◌,
  ◌++◌, arith, ◌==◌, if◌then◌else◌,
}
use cloud_sync_lib.Base.Tests.{Bool-cases}
use cloud_sync_lib.Base.Lists.{append-nil, length, is_empty}
use cloud_sync_lib.Base.Text.{Text, contains_char, trim_start}
use cloud_sync_lib.Paths.{
  normalize_remote_path, clean_dest, format_relative_path, format_absolute_path,
}

trim_start-length_le : (c : ℕ) (s : Text) → length (trim_start c s) ≤ length s
unfolding trim_start
trim_start-length_le c [] = omega arith
trim_start-length_le c (a ∷ s) = let ih = trim_start-length_le c s in ground arith

trim_start-length : (c : ℕ) (s : Text) → length (trim_start c s) ≡ length s → trim_start c s ≡ s
unfolding trim_start
trim_start-length c [] h = refl
trim_start-length c (a ∷ s) h =
    let l = trim_start-length_le c s in
    elim (Bool-cases (a == c)) [
      | inl i ↦
          let k : length (trim_start c s) ≡ suc (length s) = ground arith in absurd (omega arith)
      | inr i ↦ rw i refl
    ]

abbrev clean_path : Text → Text
clean_path p = trim_start b'/' (normalize_remote_path p)

-- A borrowed path is its own clean form.
unchanged :
    (p : Text)
    → (contains_char 92 p || not (length (clean_path p) == length p)) ≡ false
    → clean_path p ≡ p
unfolding normalize_remote_path
unchanged p h =
    let i : contains_char 92 p ≡ false = ground arith in
    let j : (length (trim_start b'/' p) == length p) ≡ true = ground arith in
    let k : length (trim_start b'/' p) ≡ length p = ground arith in
    rw i (trim_start-length b'/' p k)

abbrev behind : Text → Text → Text
behind [] clean = clean
behind (a ∷ dest) [] = a ∷ dest
behind (a ∷ dest) (b ∷ clean) = (a ∷ dest) ++ b'/' ∷ b ∷ clean

relative_behind :
    (p clean dest : Text) (owned : Bool)
    → (owned ≡ false → clean ≡ p)
    → (if not (is_empty dest)
        then (if is_empty clean then dest else dest ++ b'/' ∷ clean)
        else if owned
        then clean
        else p)
      ≡ behind dest clean
relative_behind p clean [] true h = refl
relative_behind p clean [] false h = sym (h refl)
relative_behind p [] (a ∷ dest) owned h = refl
relative_behind p (b ∷ clean) (a ∷ dest) owned h = refl

format_relative_path_lem :
    (p : Text) (d : Option Text) → format_relative_path p d ≡ behind (clean_dest d) (clean_path p)
unfolding format_relative_path
format_relative_path_lem p d =
    relative_behind p (clean_path p) (clean_dest d)
      (contains_char 92 p || not (length (clean_path p) == length p)) (unchanged p)

rooted :
    (dest clean : Text)
    → (if is_empty dest then [] else b'/' ∷ dest) ++ (if is_empty clean then [] else b'/' ∷ clean)
      ≡ (if is_empty (behind dest clean) then [] else b'/' ∷ behind dest clean)
rooted [] [] = refl
rooted [] (b ∷ clean) = refl
rooted (a ∷ dest) [] = ap (λ t. b'/' ∷ a ∷ t) (append-nil dest)
rooted (a ∷ dest) (b ∷ clean) = refl

-- The absolute form of a path is a slash and its relative form, or empty where that is empty, with
-- and without a destination folder.
format_absolute_path-format_relative_path :
    (p : Text) (d : Option Text)
    → format_absolute_path p d
      ≡ (if is_empty (format_relative_path p d) then [] else b'/' ∷ format_relative_path p d)
unfolding format_absolute_path
format_absolute_path-format_relative_path p d =
    rooted (clean_dest d) (clean_path p)
    ∙ ap (λ t. if is_empty t then [] else b'/' ∷ t) (sym (format_relative_path_lem p d))
