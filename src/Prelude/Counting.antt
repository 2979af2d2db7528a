-- ===== src/Prelude/Counting.antt =====
-- How many elements pass a test: `xs.filter(p).length`.
use sih.Prelude.Tests.{if◌then◌else◌}
use sih.Prelude.Lists.{length, filter}
use Prim.Native.Nat.{ℕ, ◌+◌, ◌≤◌}
use mathlib.Core.Path.{◌≡◌, refl}
use mathlib.Core.Bool.{Bool}
use mathlib.Core.List.{List, [], ◌∷◌, ◌++◌}
use native.Mathlib.Omega.{arith}

module _ {ℓ} {A : Type ℓ} where
  unfoldable pub count_if : (A → Bool) → List A → ℕ
  count_if p [] = 0
  count_if p (x ∷ xs) = (if p x then 1 else 0) + count_if p xs

  pub length-filter-eq : (p : A → Bool) (xs : List A) → length (filter p xs) ≡ count_if p xs
  unfolding filter count_if
  length-filter-eq p [] = refl
  length-filter-eq p (x ∷ xs) = ground (arith, length-filter-eq p xs)

  pub count_if-append :
      (p : A → Bool) (xs ys : List A) → count_if p (xs ++ ys) ≡ count_if p xs + count_if p ys
  unfolding count_if
  count_if-append p [] ys = omega arith
  count_if-append p (x ∷ xs) ys = ground (arith, count_if-append p xs ys)

  pub count_if-le-length : (p : A → Bool) (xs : List A) → count_if p xs ≤ length xs
  unfolding count_if
  count_if-le-length p [] = omega arith
  count_if-le-length p (x ∷ xs) = ground (arith, count_if-le-length p xs)
