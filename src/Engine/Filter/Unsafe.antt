-- ===== src/Engine/Filter/Unsafe.antt =====
-- What the check for unsafe paths of crates/cloud_sync_daemon/src/engine/filter.rs keeps out.
use mathlib.Core.Path.{subst}
use cloud_sync_lib.Base.{ℕ, ◌≡◌, refl, inl, inr, true, false, List, [], ◌∷◌, arith, ◌==◌}
use cloud_sync_lib.Base.Tests.{Bool-cases}
use cloud_sync_lib.Base.Lists.{All, All-mono}
use cloud_sync_lib.Base.Text.{
  Text, codes, text_eq, text_eq_iff, starts_with, contains, before_first, split,
}
use cloud_sync_lib.Engine.Filter.{is_unsafe_path}

-- The first piece of a split.
split-before_first : (c : ℕ) (s : Text) → (rest : List Text) × (split c s ≡ before_first c s ∷ rest)
unfolding split before_first
split-before_first c [] = ([], refl)
split-before_first c (a ∷ s) =
    let (rest, e) = split-before_first c s in
    elim (Bool-cases (a == c)) [
      | inl i ↦ (before_first c s ∷ rest, rw (i, e) refl)
      | inr i ↦ (rest, rw (i, e) refl)
    ]

starts_with-before_first :
    (c : ℕ) (s p : Text) → starts_with s p ≡ false → starts_with (before_first c s) p ≡ false
unfolding starts_with before_first
starts_with-before_first c [] p h = h
starts_with-before_first c (a ∷ s) [] h = ground arith
starts_with-before_first c (a ∷ s) (b ∷ p) h =
    let ih = starts_with-before_first c s p in
    elim (Bool-cases (a == c)) [ inl i ↦ rw i refl | inr i ↦ rw i (ground arith) ]

-- No piece of a text has what the text lacks.
split-contains :
    (c d : ℕ) (p s : Text)
    → contains s (d ∷ p) ≡ false
    → All (λ t. contains t (d ∷ p) ≡ false) (split c s)
unfolding contains split starts_with before_first
split-contains c d p [] h = (refl, tt)
split-contains c d p (a ∷ s) h =
    let tail : contains s (d ∷ p) ≡ false = ground arith in
    let head : starts_with (a ∷ s) (d ∷ p) ≡ false = ground arith in
    let ih = split-contains c d p s tail in
    let (rest, e) = split-before_first c s in
    let first = starts_with-before_first c (a ∷ s) (d ∷ p) head in
    elim (Bool-cases (a == c)) [
      | inl i ↦ rw i (refl, ih)
      | inr i ↦
          let (h0, hs) = subst (All (λ t. contains t (d ∷ p) ≡ false)) e ih in
          let first' : starts_with (a ∷ before_first c s) (d ∷ p) ≡ false = ground arith in
          rw (i, e) (ground arith, hs)
    ]

dots_self : contains (codes "..") (codes "..") ≡ true
unfolding contains starts_with
dots_self = refl

dots-contain : (t : Text) → contains t (codes "..") ≡ false → text_eq t (codes "..") ≡ false
dots-contain t h = elim (Bool-cases (text_eq t (codes ".."))) [
  | inl i ↦ absurd (
      let e : t ≡ codes ".." = (text_eq_iff t (codes "..")).0 i in
      let k : contains (codes "..") (codes "..") ≡ false =
        subst (λ s. contains s (codes "..") ≡ false) e h in
      let k' : contains (codes "..") (codes "..") ≡ true = dots_self in ground arith)
  | inr i ↦ i
]

-- A path that passes the check does not start with a slash and has no segment of two dots.
is_unsafe_path-segments :
    (p : Text)
    → is_unsafe_path p ≡ false
    → (starts_with p (codes "/") ≡ false) × All (λ s. text_eq s (codes "..") ≡ false) (split b'/' p)
unfolding is_unsafe_path
is_unsafe_path-segments p h =
    let i : contains p (codes "..") ≡ false = ground arith in
    let j : starts_with p (codes "/") ≡ false = ground arith in
    (
      j,
      All-mono (λ s. contains s (codes "..") ≡ false) (λ s. text_eq s (codes "..") ≡ false)
          (split b'/' p) dots-contain (split-contains b'/' b'.' (codes ".") p i),
    )
