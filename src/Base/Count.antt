-- ===== src/Base/Count.antt =====
-- How often a text occurs in a list: the lists of paths are compared as multisets.
use Prim.Native.Nat.{ℕ, ◌+◌}
use mathlib.Core.Path.{◌≡◌, refl}
use mathlib.Core.List.{List, [], ◌∷◌, ◌++◌, map}
use native.Mathlib.Omega.{arith}
use cloud_sync_lib.Base.Tests.{if◌then◌else◌}
use cloud_sync_lib.Base.Text.{Text, text_eq}

-- 1 for the text itself, 0 for any other.
abbrev pub hit : Text → Text → ℕ
hit p q = if text_eq q p then 1 else 0

-- The sum of a weight over a list.
abbrev pub total : (Text → ℕ) → List Text → ℕ
total f [] = 0
total f (q ∷ qs) = f q + total f qs

pub total-append : (f : Text → ℕ) (xs ys : List Text) → total f (xs ++ ys) ≡ total f xs + total f ys
total-append f [] ys = omega arith
total-append f (x ∷ xs) ys = omega (arith, total-append f xs ys)

pub total-map :
    (f : Text → ℕ) (g : Text → Text) (xs : List Text) → total f (map g xs) ≡ total (λ x. f (g x)) xs
total-map f g [] = refl
total-map f g (x ∷ xs) = omega (arith, total-map f g xs)

abbrev pub count : Text → List Text → ℕ
count p = total (hit p)

-- The same texts, each as often.
abbrev pub SameItems : List Text → List Text → Type 0
SameItems xs ys = (p : Text) → count p xs ≡ count p ys
