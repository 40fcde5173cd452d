-- ===== src/Providers/Sessions/Parts.antt =====
-- A file that is sent in parts, one after the other, by the uploads of
-- crates/cloud_sync_lib/src/providers/utils.rs: each part is what a single read gave, which may be less
-- than was asked for, and the next part starts where a full read would have ended.
use mathlib.Core.List.{append_assoc}
use cloud_sync_lib.Base.{ℕ, ◌+◌, ◌-◌, ◌≤◌, ◌≡◌, sym, ap, ◌∙◌, min, List, [], ◌∷◌, ◌++◌, arith}
use cloud_sync_lib.Base.Lists.{append-nil, length, length-append}
use cloud_sync_lib.Base.Slices.{slice, drop, slice-drop, drop-length}
use cloud_sync_lib.Base.Text.{Text}

module _ {R : Type 0} (body : R → Text) where
  abbrev pub joined : List R → Text
  joined [] = []
  joined (r ∷ rs) = body r ++ joined rs

  module _ (Heads : ℕ → R → Type 0) (file : Text) (chunk : ℕ) where
    -- How much is asked for at an offset.
    abbrev pub asked : ℕ → ℕ
    asked from = min (length file - from) chunk

    -- The requests from one offset to another. Each names its offset, and its body is the file's part
    -- from there, of at most the length that was asked for; the offset advances by that length.
    abbrev pub Carry : ℕ → List R → ℕ → Type 0
    Carry from [] till = from ≡ till
    Carry from (r ∷ rs) till =
        Heads from r
        × (length (body r) ≤ asked from)
        × (body r ≡ slice from (length (body r)) file)
        × Carry (from + asked from) rs till

    -- Every part has the length that was asked for.
    abbrev pub Full : ℕ → List R → Type 0
    Full from [] = Unit
    Full from (r ∷ rs) = (length (body r) ≡ asked from) × Full (from + asked from) rs

    joined-drop :
        (from till : ℕ) (rs : List R)
        → Carry from rs till
        → Full from rs
        → joined rs ++ drop till file ≡ drop from file
    joined-drop from till [] h f = ap (λ n. drop n file) (sym h)
    joined-drop from till (r ∷ rs) (a, b, c, d) (e, f) =
        append_assoc (body r) (joined rs) (drop till file)
        ∙ ap (λ t. body r ++ t) (joined-drop (from + asked from) till rs d f)
        ∙ ap (λ n. body r ++ drop (from + n) file) (sym e)
        ∙ ap (λ t. t ++ drop (from + length (body r)) file) c
        ∙ slice-drop from (length (body r)) file

    joined_le :
        (from till : ℕ) (rs : List R) → Carry from rs till → from + length (joined rs) ≤ till
    joined_le from till [] h = omega arith
    joined_le from till (r ∷ rs) (a, b, c, d) =
        omega
          (arith, b, joined_le (from + asked from) till rs d, length-append (body r) (joined rs))

    joined-Full :
        (from till : ℕ) (rs : List R)
        → Carry from rs till
        → from + length (joined rs) ≡ till
        → Full from rs
    joined-Full from till [] h e = tt
    joined-Full from till (r ∷ rs) (a, b, c, d) e =
        let l = joined_le (from + asked from) till rs d in
        let k = length-append (body r) (joined rs) in
        (
          omega (arith, b, l, k, e),
          joined-Full (from + asked from) till rs d (omega (arith, b, l, k, e)),
        )

    -- The parts up to the end of the file are the file when each is full, and only then.
    pub whole-Full :
        (rs : List R) (till : ℕ)
        → Carry 0 rs till
        → till ≡ length file
        → (Full 0 rs → joined rs ≡ file) × (joined rs ≡ file → Full 0 rs)
    whole-Full rs till c e = (
      λ f.
          sym (append-nil (joined rs))
          ∙ ap (λ t. joined rs ++ t) (sym (ap (λ n. drop n file) e ∙ drop-length file))
          ∙ joined-drop 0 till rs c f,
      λ h. joined-Full 0 till rs c (let k = ap length h in omega (arith, k, e)),
    )
