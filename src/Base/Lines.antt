-- ===== src/Base/Lines.antt =====
-- White space, lines and string patterns of `str`, as far as the program uses them. White space is
-- that of ASCII; the spaces of Unicode that take several bytes are not counted.
use mathlib.Core.List.{reverse-append}
use cloud_sync_lib.Base.{
  ℕ, zero, suc, ◌≡◌, refl, ap, Bool, true, false, ◌||◌, ◌&&◌, not, List, [], ◌∷◌, ◌++◌, ◌==◌, leb,
  if◌then◌else◌, arith,
}
use cloud_sync_lib.Base.Lists.{length, all}
use cloud_sync_lib.Base.Slices.{drop, drop-append}
use cloud_sync_lib.Base.Text.{Text, starts_with, ends_with, split, onto_first}

abbrev pub is_whitespace : ℕ → Bool
is_whitespace c = c == 32 || (leb 9 c && leb c 13)

unfoldable pub trim_left : Text → Text
trim_left [] = []
trim_left (a ∷ s) = if is_whitespace a then trim_left s else a ∷ s

-- A byte is kept if it is no white space or if something is kept after it.
unfoldable pub trim_right : Text → Text
trim_right [] = []
trim_right (a ∷ s) = elim (trim_right s) [
  | [] ↦ if is_whitespace a then [] else a ∷ []
  | b ∷ t ↦ a ∷ b ∷ t
]

-- `s.trim()`
unfoldable pub trim_whitespace : Text → Text
unfolding trim_left trim_right
trim_whitespace s = trim_right (trim_left s)

-- `s.lines()`: a carriage return before the end of a line does not count.
unfoldable pub lines : Text → List Text
unfolding starts_with
lines [] = []
lines (c ∷ s) =
    let rest = lines s in
    if c == 10
    then [] ∷ rest
    else if c == 13 && starts_with s (10 ∷ [])
    then rest
    else onto_first c rest

unfoldable pub trim_matches : ℕ → Text → Text → Text
unfolding starts_with
trim_matches zero p s = s
trim_matches (suc n) p s =
    let rest = trim_matches n p (drop (length p) s) in if starts_with s p then rest else s

-- `s.trim_start_matches(p)` for a string pattern that is not empty
unfoldable pub trim_start_matches : Text → Text → Text
unfolding trim_matches
trim_start_matches p s = trim_matches (length s) p s

-- `s.strip_prefix(c).unwrap_or(s)` for a character
unfoldable pub without_first : ℕ → Text → Text
without_first c [] = []
without_first c (a ∷ s) = if a == c then s else a ∷ s

-- `s.strip_suffix(c).unwrap_or(s)` for a character
unfoldable pub without_last : ℕ → Text → Text
without_last c [] = []
without_last c (a ∷ []) = if a == c then [] else a ∷ []
without_last c (a ∷ b ∷ s) = a ∷ without_last c (b ∷ s)

abbrev pub word_onto : ℕ → Bool → List Text → List Text
word_onto a true ws = (a ∷ []) ∷ ws
word_onto a false ws = onto_first a ws

abbrev pub starts_white : Text → Bool
starts_white [] = true
starts_white (a ∷ s) = is_whitespace a

-- `s.split_whitespace()`
unfoldable pub split_whitespace : Text → List Text
split_whitespace [] = []
split_whitespace (a ∷ s) =
    let rest = split_whitespace s in
    if is_whitespace a then rest else word_onto a (starts_white s) rest

pub starts_with-append : (p s : Text) → starts_with (p ++ s) p ≡ true
unfolding starts_with
starts_with-append [] s = refl
starts_with-append (b ∷ p) s = ground (arith, starts_with-append p s)

trim_matches-stop : (n : ℕ) (p v : Text) → starts_with v p ≡ false → trim_matches n p v ≡ v
unfolding trim_matches
trim_matches-stop zero p v h = refl
trim_matches-stop (suc n) p v h = rw h refl

pub trim_start_matches-append :
    (b : ℕ) (p v : Text)
    → starts_with v (b ∷ p) ≡ false
    → trim_start_matches (b ∷ p) ((b ∷ p) ++ v) ≡ v
unfolding trim_start_matches
trim_start_matches-append b p v h =
    unfold trim_matches in
    rw (starts_with-append (b ∷ p) v, drop-append (length (b ∷ p)) (b ∷ p) v refl)
      (trim_matches-stop (length (p ++ v)) (b ∷ p) v h)

trim_right-append :
    (c : ℕ) (v : Text) → is_whitespace c ≡ false → trim_right (v ++ c ∷ []) ≡ v ++ c ∷ []
unfolding trim_right
trim_right-append c [] h = rw h refl
trim_right-append c (a ∷ []) h = rw (h, trim_right) refl
trim_right-append c (a ∷ b ∷ v) h = rw (trim_right-append c (b ∷ v) h) refl

pub trim_whitespace-framed :
    (a c : ℕ) (v : Text)
    → is_whitespace a ≡ false
    → is_whitespace c ≡ false
    → trim_whitespace (a ∷ v ++ c ∷ []) ≡ a ∷ v ++ c ∷ []
unfolding trim_whitespace trim_left
trim_whitespace-framed a c v h k = rw h (trim_right-append c (a ∷ v) k)

pub without_last-append : (c : ℕ) (v : Text) → without_last c (v ++ c ∷ []) ≡ v
unfolding without_last
without_last-append c [] = ground arith
without_last-append c (a ∷ []) = ground arith
without_last-append c (a ∷ b ∷ v) = ap (λ t. a ∷ t) (without_last-append c (b ∷ v))

pub ends_with-append : (c : ℕ) (v : Text) → ends_with (v ++ c ∷ []) (c ∷ []) ≡ true
unfolding ends_with starts_with
ends_with-append c v = rw (reverse-append v (c ∷ [])) (ground arith)

-- No byte of the text ends a line.
abbrev pub is_line : Text → Bool
is_line = all (λ c. not (c == 10 || c == 13))

pub is_line-append : (s t : Text) → is_line s ≡ true → is_line t ≡ true → is_line (s ++ t) ≡ true
is_line-append [] t h k = k
is_line-append (c ∷ s) t h k = ground (arith, is_line-append s t)

pub lines-append : (l rest : Text) → is_line l ≡ true → lines (l ++ 10 ∷ rest) ≡ l ∷ lines rest
unfolding lines
lines-append [] rest h = refl
lines-append (c ∷ l) rest h = ground (arith, lines-append l rest)

-- The byte is not in the text.
abbrev pub is_free : ℕ → Text → Bool
is_free c = all (λ a. not (a == c))

pub is_free-append :
    (c : ℕ) (s t : Text) → is_free c s ≡ true → is_free c t ≡ true → is_free c (s ++ t) ≡ true
is_free-append c [] t h k = k
is_free-append c (a ∷ s) t h k = ground (arith, is_free-append c s t)

pub split-append_free :
    (c : ℕ) (s t : Text) → is_free c s ≡ true → split c (s ++ c ∷ t) ≡ s ∷ split c t
unfolding split
split-append_free c [] t h = ground arith
split-append_free c (a ∷ s) t h = ground (arith, split-append_free c s t)

pub split_free : (c : ℕ) (s : Text) → is_free c s ≡ true → split c s ≡ s ∷ []
unfolding split
split_free c [] h = refl
split_free c (a ∷ s) h = ground (arith, split_free c s)
