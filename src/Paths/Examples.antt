-- ===== src/Paths/Examples.antt =====
-- Paths of two segments.
use cloud_sync_lib.Base.{none, ◌≡◌, refl, ◌++◌, some, [], ◌∷◌, arith}
use cloud_sync_lib.Base.Text.{
  Text, codes, text_eq, contains_char, replace, trim_start, split, before_first,
}
use cloud_sync_lib.Storage.Errors.{ok}
use cloud_sync_lib.Paths.{
  is_numbered_port, is_reserved_dos_name, check_segment, check_segments, trimmed, new_path,
}
use cloud_sync_lib.Paths.EncodeRoundTrip.{AreBytes}
use cloud_sync_lib.Paths.Normalized.{IsNormalized, new_path-IsNormalized}

abbrev report : Text
report = codes "docs/report..pdf"

accepted : new_path (codes "/docs" ++ 92 ∷ codes "report..pdf") ≡ some (ok report)
unfolding new_path contains_char trimmed replace trim_start check_segments check_segment split
    text_eq is_reserved_dos_name is_numbered_port before_first
accepted = refl

-- "aaé": a stem of four bytes whose fourth byte continues a character.
panics : new_path (97 ∷ 97 ∷ 195 ∷ 169 ∷ []) ≡ none
unfolding new_path contains_char trimmed replace trim_start check_segments check_segment split
    text_eq is_reserved_dos_name is_numbered_port before_first
panics = refl

report-IsNormalized : IsNormalized report
report-IsNormalized =
    (new_path-IsNormalized (codes "/docs" ++ 92 ∷ codes "report..pdf") report accepted).1

new_path-IsNormalized_example :
    (trimmed (codes "/docs" ++ 92 ∷ codes "report..pdf") ≡ report) × IsNormalized report
new_path-IsNormalized_example =
    new_path-IsNormalized (codes "/docs" ++ 92 ∷ codes "report..pdf") report accepted

abbrev spaced : Text
spaced = codes "a b/c%"

spaced-AreBytes : AreBytes spaced
spaced-AreBytes = ground arith
