-- ===== src/Base/Slices.antt =====
-- Prefixes, suffixes and slices of texts.
use cloud_sync_lib.Base.{ℕ, zero, suc, ◌+◌, ◌≤◌, ◌≡◌, refl, ap, [], ◌∷◌, ◌++◌, arith, min}
use cloud_sync_lib.Base.Lists.{length}
use cloud_sync_lib.Base.Text.{Text}

abbrev pub drop : ℕ → Text → Text
drop zero s = s
drop (suc n) [] = []
drop (suc n) (a ∷ s) = drop n s

abbrev pub take : ℕ → Text → Text
take zero s = []
take (suc n) [] = []
take (suc n) (a ∷ s) = a ∷ take n s

-- The bytes at an offset, as many as are there up to a number.
abbrev pub slice : ℕ → ℕ → Text → Text
slice o n s = take n (drop o s)

length-take : (n : ℕ) (s : Text) → n ≤ length s → length (take n s) ≡ n
length-take zero s h = refl
length-take (suc n) [] h = absurd (omega arith)
length-take (suc n) (a ∷ s) h = ap suc (length-take n s (omega arith))

pub length-slice : (o n : ℕ) (s : Text) → o + n ≤ length s → length (slice o n s) ≡ n
length-slice zero n s h = length-take n s (omega arith)
length-slice (suc o) zero [] h = refl
length-slice (suc o) (suc n) [] h = absurd (omega arith)
length-slice (suc o) n (a ∷ s) h = length-slice o n s (omega arith)

drop-nil : (n : ℕ) → drop n [] ≡ []
drop-nil zero = refl
drop-nil (suc n) = refl

pub take-drop : (n : ℕ) (s : Text) → take n s ++ drop n s ≡ s
take-drop zero s = refl
take-drop (suc n) [] = refl
take-drop (suc n) (a ∷ s) = ap (λ t. a ∷ t) (take-drop n s)

pub slice-drop : (o n : ℕ) (s : Text) → slice o n s ++ drop (o + n) s ≡ drop o s
slice-drop zero n s = let i : 0 + n ≡ n = omega arith in rw i (take-drop n s)
slice-drop (suc o) zero [] = drop-nil (suc o + zero)
slice-drop (suc o) (suc n) [] = drop-nil (suc o + suc n)
slice-drop (suc o) n (a ∷ s) =
    let i : suc o + n ≡ suc (o + n) = omega arith in rw i (slice-drop o n s)

pub drop-length : (s : Text) → drop (length s) s ≡ []
drop-length [] = refl
drop-length (a ∷ s) = drop-length s

pub slice-length_le : (o n : ℕ) (s : Text) → length (slice o n s) ≤ n
slice-length_le zero zero s = omega arith
slice-length_le zero (suc n) [] = omega arith
slice-length_le zero (suc n) (a ∷ s) = omega (arith, slice-length_le zero n s)
slice-length_le (suc o) zero [] = omega arith
slice-length_le (suc o) (suc n) [] = omega arith
slice-length_le (suc o) n (a ∷ s) = slice-length_le o n s

pub take-append : (n : ℕ) (s t : Text) → length s ≡ n → take n (s ++ t) ≡ s
take-append zero [] t e = refl
take-append zero (a ∷ s) t e = absurd (omega arith)
take-append (suc n) [] t e = absurd (omega arith)
take-append (suc n) (a ∷ s) t e = ap (λ r. a ∷ r) (take-append n s t (omega arith))

pub drop-append : (n : ℕ) (s t : Text) → length s ≡ n → drop n (s ++ t) ≡ t
drop-append zero [] t e = refl
drop-append zero (a ∷ s) t e = absurd (omega arith)
drop-append (suc n) [] t e = absurd (omega arith)
drop-append (suc n) (a ∷ s) t e = drop-append n s t (omega arith)

pub length-take-min : (n : ℕ) (s : Text) → length (take n s) ≡ min n (length s)
length-take-min zero s = omega arith
length-take-min (suc n) [] = omega arith
length-take-min (suc n) (a ∷ s) = omega (arith, length-take-min n s)

take-length_self : (n : ℕ) (s : Text) → take n s ≡ take (length (take n s)) s
take-length_self zero s = refl
take-length_self (suc n) [] = refl
take-length_self (suc n) (a ∷ s) = ap (λ t. a ∷ t) (take-length_self n s)

-- A slice that the end of the text cuts off is the slice of its own length.
pub slice-length_self : (o n : ℕ) (s : Text) → slice o n s ≡ slice o (length (slice o n s)) s
slice-length_self o n s = take-length_self n (drop o s)
