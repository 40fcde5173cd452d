-- ===== src/Base/Text.antt =====
-- Strings as lists of UTF-8 bytes, with the operations of `str` that the program uses.
-- The patterns of the source are ASCII, so a search by bytes is a search by characters.
use Prim.Native.Char.{code}
use Prim.Native.String.{String}
use mathlib.Core.List.{reverse}
use cloud_sync_lib.Base.Tests.{◌==◌, if◌then◌else◌}
use Prim.Native.Nat.{ℕ}
use mathlib.Core.Path.{◌≡◌, refl}
use mathlib.Core.Logic.{◌↔◌}
use mathlib.Core.Bool.{not, Bool, true, false, ◌&&◌, ◌||◌}
use mathlib.Core.Option
use mathlib.Core.Option.{Option, none, some}
use mathlib.Core.List.{List, [], ◌∷◌, ◌++◌}
use native.Mathlib.Omega.{arith}

abbrev pub Text : Type 0
Text = List ℕ

-- The bytes of an ASCII literal.
abbrev pub codes : String → Text
codes String.[] = []
codes (String.◌∷◌ c s) = code c ∷ codes s

unfoldable pub text_eq : Text → Text → Bool
text_eq [] [] = true
text_eq [] (b ∷ t) = false
text_eq (a ∷ s) [] = false
text_eq (a ∷ s) (b ∷ t) = (a == b) && text_eq s t

pub text_eq_iff : (s t : Text) → (text_eq s t ≡ true) ↔ (s ≡ t)
unfolding text_eq
text_eq_iff [] [] = ground arith
text_eq_iff [] (b ∷ t) = ground arith
text_eq_iff (a ∷ s) [] = ground arith
text_eq_iff (a ∷ s) (b ∷ t) = ground (arith, text_eq_iff s t)

pub text_eq_refl : (s : Text) → text_eq s s ≡ true
text_eq_refl s = (text_eq_iff s s).1 refl

-- `s.starts_with(p)`
unfoldable pub starts_with : Text → Text → Bool
starts_with s [] = true
starts_with [] (b ∷ p) = false
starts_with (a ∷ s) (b ∷ p) = (a == b) && starts_with s p

-- `s.ends_with(p)`
unfoldable pub ends_with : Text → Text → Bool
unfolding starts_with
ends_with s p = starts_with (reverse s) (reverse p)

-- `s.contains(p)` for a string pattern
unfoldable pub contains : Text → Text → Bool
unfolding starts_with
contains [] p = starts_with [] p
contains (a ∷ s) p = starts_with (a ∷ s) p || contains s p

-- `s.contains(c)` for a character pattern
unfoldable pub contains_char : ℕ → Text → Bool
contains_char c [] = false
contains_char c (a ∷ s) = a == c || contains_char c s

-- `s.replace(a, "b")` for single bytes
unfoldable pub replace : ℕ → ℕ → Text → Text
replace a b [] = []
replace a b (c ∷ s) = (if c == a then b else c) ∷ replace a b s

-- `s.trim_start_matches(c)`
unfoldable pub trim_start : ℕ → Text → Text
trim_start c [] = []
trim_start c (a ∷ s) = if a == c then trim_start c s else a ∷ s

-- `s.trim_end_matches(c)`: a byte is kept if it is another one or if something is kept after it.
unfoldable pub trim_end : ℕ → Text → Text
trim_end c [] = []
trim_end c (a ∷ s) = elim (trim_end c s) [ [] ↦ if a == c then [] else a ∷ [] | b ∷ t ↦ a ∷ b ∷ t ]

-- `s.trim_matches(c)`
unfoldable pub trim : ℕ → Text → Text
unfolding trim_start trim_end
trim c s = trim_end c (trim_start c s)

abbrev pub onto_first : ℕ → List Text → List Text
onto_first a [] = (a ∷ []) ∷ []
onto_first a (s ∷ ss) = (a ∷ s) ∷ ss

-- `s.split(c)`: always one piece more than there are separators
unfoldable pub split : ℕ → Text → List Text
split c [] = [] ∷ []
split c (a ∷ s) = let rest = split c s in if a == c then [] ∷ rest else onto_first a rest

-- The part before the first `c`, or the whole: `split_once(c)` in the form in which it is used.
unfoldable pub before_first : ℕ → Text → Text
before_first c [] = []
before_first c (a ∷ s) = let rest = before_first c s in if a == c then [] else a ∷ rest

-- `Path::file_name`: the last component, which `..` and the root do not have. Trailing slashes
-- and `.` components do not count.
unfoldable pub last_component : List Text → Option Text
unfolding text_eq
last_component [] = none
last_component (s ∷ ss) = elim (last_component ss) [
  | some t ↦ some t
  | none ↦ if text_eq s [] || text_eq s (codes ".") then none else some s
]

unfoldable pub file_name : Text → Option Text
unfolding split last_component
file_name s = elim (last_component (split b'/' s)) [
  | none ↦ none
  | some t ↦ if text_eq t (codes "..") then none else some t
]

-- `Path::join`: an absolute path replaces, any other is put behind one slash.
unfoldable pub path_join : Text → Text → Text
unfolding starts_with ends_with text_eq
path_join base p =
    if starts_with p (codes "/")
    then p
    else if text_eq base [] || ends_with base (codes "/")
    then base ++ p
    else base ++ b'/' ∷ p

abbrev keep_component : Text → List Text → List Text
keep_component [] rest = rest
keep_component (c ∷ s) rest = if text_eq (c ∷ s) (codes ".") then rest else (c ∷ s) ∷ rest

abbrev keep_components : List Text → List Text
keep_components [] = []
keep_components (s ∷ ss) = keep_component s (keep_components ss)

-- `Path::components` without the root: empty and `.` components do not count.
unfoldable pub components : Text → List Text
unfolding split text_eq
components s = keep_components (split b'/' s)

-- The components joined by slashes.
unfoldable pub join_components : List Text → Text
join_components [] = []
join_components (s ∷ []) = s
join_components (s ∷ t ∷ ss) = s ++ b'/' ∷ join_components (t ∷ ss)

abbrev drop_last : List Text → List Text
drop_last [] = []
drop_last (s ∷ []) = []
drop_last (s ∷ t ∷ ss) = s ∷ drop_last (t ∷ ss)

-- `Path::parent`, up to doubled slashes: the root and the empty path have none.
unfoldable pub parent : Text → Option Text
unfolding components join_components starts_with
parent s = elim (components s) [
  | [] ↦ none
  | c ∷ cs ↦ some (
      (if starts_with s (codes "/") then codes "/" else []) ++ join_components (drop_last (c ∷ cs)))
]

unfoldable pub strip_components : List Text → List Text → Option (List Text)
unfolding text_eq
strip_components cs [] = some cs
strip_components [] (b ∷ bs) = none
strip_components (c ∷ cs) (b ∷ bs) =
    let rest = strip_components cs bs in if text_eq c b then rest else none

abbrev same_root : Text → Text → Bool
same_root s base = elim (starts_with s (codes "/")) [
  | true ↦ starts_with base (codes "/")
  | false ↦ not (starts_with base (codes "/"))
]

-- `s.strip_prefix(base)` on paths
unfoldable pub strip_prefix : Text → Text → Option Text
unfolding components strip_components join_components starts_with
strip_prefix s base =
    if same_root s base
    then Option.map join_components (strip_components (components s) (components base))
    else none
