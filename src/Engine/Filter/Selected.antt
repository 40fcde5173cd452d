-- ===== src/Engine/Filter/Selected.antt =====
-- Selective synchronisation in crates/cloud_sync_daemon/src/engine/filter.rs: the folders on the way
-- to a selected path.
use cloud_sync_lib.Base.{
  false, ◌==◌, ℕ, sym, ap, ◌∙◌, Option, none, some, ◌≡◌, refl, Bool, true, List, [], ◌∷◌, ◌++◌,
  arith,
}
use cloud_sync_lib.Base.Lists.{any}
use cloud_sync_lib.Base.Text.{trim_start, Text, text_eq, starts_with}
use cloud_sync_lib.Engine.Filter.{FileFilter, is_related, selected_by, is_path_selected}

starts_with_nil : (s : Text) → starts_with s [] ≡ true
unfolding starts_with
starts_with_nil [] = refl
starts_with_nil (a ∷ s) = refl

is_related-ancestor : (a b p : Text) → is_related (a ++ b'/' ∷ b) p ≡ true → is_related a p ≡ true
unfolding is_related text_eq starts_with
is_related-ancestor [] b [] h = refl
is_related-ancestor [] b (x ∷ p) h = let n = starts_with_nil p in ground arith
is_related-ancestor (y ∷ a) b [] h =
    let n = starts_with_nil a in let m = starts_with_nil (a ++ b'/' ∷ b) in ground arith
is_related-ancestor (y ∷ a) b (x ∷ p) h = let ih = is_related-ancestor a b p in ground arith

any_mono :
    (p q : Text → Bool) (xs : List Text)
    → ((x : Text) → p x ≡ true → q x ≡ true)
    → any p xs ≡ true
    → any q xs ≡ true
any_mono p q [] h k = k
any_mono p q (x ∷ xs) h k = let head = h x in let tail = any_mono p q xs h in ground arith

trim_start-kept : (c y : ℕ) (s : Text) → (y == c) ≡ false → trim_start c (y ∷ s) ≡ y ∷ s
unfolding trim_start
trim_start-kept c y s h = rw h refl

selected_by-ancestor :
    (prefixes : Option (List Text)) (y : ℕ) (a b : Text)
    → (y == b'/') ≡ false
    → selected_by (y ∷ a ++ b'/' ∷ b) prefixes ≡ true
    → selected_by (y ∷ a) prefixes ≡ true
selected_by-ancestor none y a b u h = refl
selected_by-ancestor (some []) y a b u h = refl
selected_by-ancestor (some (x ∷ xs)) y a b u h =
    let e = trim_start-kept b'/' y a u in
    let e' = trim_start-kept b'/' y (a ++ b'/' ∷ b) u in
    any_mono (λ p. is_related (trim_start b'/' (y ∷ a ++ b'/' ∷ b)) (trim_start b'/' p))
      (λ p. is_related (trim_start b'/' (y ∷ a)) (trim_start b'/' p)) (x ∷ xs)
      (λ p k.
        ap (λ t. is_related t (trim_start b'/' p)) e
        ∙ is_related-ancestor (y ∷ a) b (trim_start b'/' p)
            (sym (ap (λ t. is_related t (trim_start b'/' p)) e') ∙ k))
      h

-- The folders on the way to a selected path are selected: a path that is cut before one of its
-- slashes is selected when the whole is, if it is not empty and does not start with a slash.
is_path_selected-ancestor :
    (filter : FileFilter) (y : ℕ) (a b : Text)
    → (y == b'/') ≡ false
    → is_path_selected filter (y ∷ a ++ b'/' ∷ b) ≡ true
    → is_path_selected filter (y ∷ a) ≡ true
unfolding is_path_selected
is_path_selected-ancestor filter y a b u h = selected_by-ancestor filter.selective_sync y a b u h
