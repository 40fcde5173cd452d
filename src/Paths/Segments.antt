-- ===== src/Paths/Segments.antt =====
-- The byte operations under `NormalizedPath` of crates/cloud_sync_core/src/path.rs: what trimming,
-- replacing and splitting keep.
use cloud_sync_lib.Base.{ℕ, ◌≡◌, refl, ◌⊎◌, inl, inr, true, false, List, [], ◌∷◌, ◌++◌, arith, ◌==◌}
use cloud_sync_lib.Base.Tests.{Bool-cases}
use cloud_sync_lib.Base.Text.{Text, contains_char, replace, trim_start, trim_end, split}

-- Not led by a byte.
abbrev pub Unled : ℕ → Text → Type 0
Unled c [] = Unit
Unled c (a ∷ s) = (a == c) ≡ false

pub trim_start-Unled : (c : ℕ) (s : Text) → Unled c (trim_start c s)
unfolding trim_start
trim_start-Unled c [] = tt
trim_start-Unled c (a ∷ s) = elim (Bool-cases (a == c)) [
  | inl i ↦ rw i (trim_start-Unled c s)
  | inr i ↦ rw i i
]

pub trim_start-id : (c : ℕ) (s : Text) → Unled c s → trim_start c s ≡ s
unfolding trim_start
trim_start-id c [] h = refl
trim_start-id c (a ∷ s) h = rw h refl

module _ (c : ℕ) where
  pub contains_char-trim_start :
      (d : ℕ) (s : Text) → contains_char c s ≡ false → contains_char c (trim_start d s) ≡ false
  unfolding contains_char trim_start
  contains_char-trim_start d [] h = refl
  contains_char-trim_start d (a ∷ s) h = ground (arith, contains_char-trim_start d s)

  pub contains_char-trim_end :
      (d : ℕ) (s : Text) → contains_char c s ≡ false → contains_char c (trim_end d s) ≡ false
  unfolding contains_char trim_end
  contains_char-trim_end d [] h = refl
  contains_char-trim_end d (a ∷ s) h = let ih = contains_char-trim_end d s in ground arith

  pub contains_char-replace :
      (a b : ℕ) (s : Text)
      → (b == c) ≡ false
      → (c ≡ a) ⊎ (contains_char c s ≡ false)
      → contains_char c (replace a b s) ≡ false
  unfolding contains_char replace
  contains_char-replace a b [] i h = refl
  contains_char-replace a b (x ∷ s) i h = let ih = contains_char-replace a b s i in ground arith

  pub contains_char-append :
      (s t : Text)
      → contains_char c s ≡ false
      → contains_char c t ≡ false
      → contains_char c (s ++ t) ≡ false
  unfolding contains_char
  contains_char-append [] t h k = k
  contains_char-append (a ∷ s) t h k = let ih = contains_char-append s t in ground arith

pub replace-id : (a b : ℕ) (s : Text) → contains_char a s ≡ false → replace a b s ≡ s
unfolding contains_char replace
replace-id a b [] h = refl
replace-id a b (x ∷ s) h = let ih = replace-id a b s in ground arith

split-cons : (c : ℕ) (s : Text) → (p : Text) × (ps : List Text) × (split c s ≡ p ∷ ps)
unfolding split
split-cons c [] = ([], [], refl)
split-cons c (a ∷ s) =
    let (p, ps, e) = split-cons c s in
    elim (Bool-cases (a == c)) [
      | inl i ↦ ([], p ∷ ps, rw (i, e) refl)
      | inr i ↦ (a ∷ p, ps, rw (i, e) refl)
    ]

-- A separator between two texts joins their pieces.
pub split-append : (c : ℕ) (s t : Text) → split c (s ++ c ∷ t) ≡ split c s ++ split c t
unfolding split
split-append c [] t = let i : (c == c) ≡ true = ground arith in rw i refl
split-append c (a ∷ s) t =
    let ih = split-append c s t in
    let (p, ps, e) = split-cons c s in
    elim (Bool-cases (a == c)) [ inl i ↦ rw (i, ih) refl | inr i ↦ rw (i, ih, e) refl ]
