-- ===== src/Prelude/Sort.antt =====
-- `xs.sort(compare)`: the stable sort of the language. `after x y` is `compare(x, y) > 0`.
use sih.Prelude.Tests.{if◌then◌else◌, Bool-cases, ltb, ◌==◌}
use sih.Prelude.Lists.{length, All, All-imp, any}
use sih.Prelude.Counting.{count_if}
use Prim.Native.Nat.{ℕ, suc}
use mathlib.Core.Path.{◌≡◌, refl, sym, subst}
use mathlib.Core.Logic.{inl, inr}
use mathlib.Core.Bool.{Bool, true, false, ◌&&◌, ◌||◌}
use mathlib.Core.List.{List, [], ◌∷◌, Memᴰ}
use native.Mathlib.Omega.{arith}

module _ {ℓ} {A : Type ℓ} (after : A → A → Bool) where
  -- `x` came before the elements of the list, so it stays before its equals.
  unfoldable pub insert : A → List A → List A
  insert x [] = x ∷ []
  insert x (y ∷ ys) = if after x y then y ∷ insert x ys else x ∷ y ∷ ys

  unfoldable pub sort : List A → List A
  unfolding insert
  sort [] = []
  sort (x ∷ xs) = insert x (sort xs)

  -- No later element should stand before an earlier one.
  abbrev pub IsSortedBy : List A → Type 0
  IsSortedBy [] = Unit
  IsSortedBy (x ∷ xs) = All (λ y. after x y ≡ false) xs × IsSortedBy xs

  count_if-insert :
      (p : A → Bool) (x : A) (xs : List A) → count_if p (insert x xs) ≡ count_if p (x ∷ xs)
  unfolding insert count_if
  count_if-insert p x [] = refl
  count_if-insert p x (y ∷ ys) = ground (arith, count_if-insert p x ys)

  -- Sorting keeps the number of elements that pass any test.
  pub count_if-sort : (p : A → Bool) (xs : List A) → count_if p (sort xs) ≡ count_if p xs
  unfolding sort count_if
  count_if-sort p [] = refl
  count_if-sort p (x ∷ xs) = omega (arith, count_if-insert p x (sort xs), count_if-sort p xs)

  length-insert : (x : A) (xs : List A) → length (insert x xs) ≡ suc (length xs)
  unfolding insert
  length-insert x [] = refl
  length-insert x (y ∷ ys) = ground (arith, length-insert x ys)

  pub length-sort : (xs : List A) → length (sort xs) ≡ length xs
  unfolding sort
  length-sort [] = refl
  length-sort (x ∷ xs) = omega (arith, length-insert x (sort xs), length-sort xs)

  All-insert {κ} : (P : A → Type κ) (x : A) (xs : List A) → P x → All P xs → All P (insert x xs)
  unfolding insert
  All-insert P x [] p h = (p, tt)
  All-insert P x (y ∷ ys) p (q, h) = elim (Bool-cases (after x y)) [
    | inl e ↦ rw e (q, All-insert P x ys p h)
    | inr e ↦ rw e (p, (q, h))
  ]

  pub All-sort {κ} : (P : A → Type κ) (xs : List A) → All P xs → All P (sort xs)
  unfolding sort
  All-sort P [] h = tt
  All-sort P (x ∷ xs) (p, h) = All-insert P x (sort xs) p (All-sort P xs h)

  mem-insert_self : (x : A) (xs : List A) → Memᴰ x (insert x xs)
  unfolding insert
  mem-insert_self x [] = Memᴰ.head refl
  mem-insert_self x (y ∷ ys) = elim (Bool-cases (after x y)) [
    | inl e ↦ rw e (Memᴰ.tail (mem-insert_self x ys))
    | inr e ↦ rw e (Memᴰ.head refl)
  ]

  mem-insert : {z : A} (x : A) (xs : List A) → Memᴰ z xs → Memᴰ z (insert x xs)
  unfolding insert
  mem-insert x [] m = elim m [ ]
  mem-insert x (y ∷ ys) (Memᴰ.head q) = elim (Bool-cases (after x y)) [
    | inl e ↦ rw e (Memᴰ.head q)
    | inr e ↦ rw e (Memᴰ.tail (Memᴰ.head q))
  ]
  mem-insert x (y ∷ ys) (Memᴰ.tail m) = elim (Bool-cases (after x y)) [
    | inl e ↦ rw e (Memᴰ.tail (mem-insert x ys m))
    | inr e ↦ rw e (Memᴰ.tail (Memᴰ.tail m))
  ]

  pub mem-sort : {z : A} (xs : List A) → Memᴰ z xs → Memᴰ z (sort xs)
  unfolding sort
  mem-sort [] m = elim m [ ]
  mem-sort {z} (x ∷ xs) (Memᴰ.head e) =
      subst (λ w. Memᴰ w (sort (x ∷ xs))) (sym e) (mem-insert_self x (sort xs))
  mem-sort (x ∷ xs) (Memᴰ.tail m) = mem-insert x (sort xs) (mem-sort xs m)

-- What the language asks of a comparator.
pub record IsComparator {ℓ} {A : Type ℓ} (after : A → A → Bool) : Type ℓ where
  pub asymmetric : (x y : A) → after x y ≡ true → after y x ≡ false
  pub transitive : (x y z : A) → after x y ≡ false → after y z ≡ false → after x z ≡ false

module _ {ℓ} {A : Type ℓ} {after : A → A → Bool} (c : IsComparator after) where
  insert-IsSortedBy :
      (x : A) (xs : List A) → IsSortedBy after xs → IsSortedBy after (insert after x xs)
  unfolding insert
  insert-IsSortedBy x [] h = (tt, tt)
  insert-IsSortedBy x (y ∷ ys) (below, h) = elim (Bool-cases (after x y)) [
    | inl e ↦ rw e (
      All-insert after (λ z. after y z ≡ false) x ys (c.asymmetric x y e) below,
      insert-IsSortedBy x ys h,
    )
    | inr e ↦
        rw e (
          (e, All-imp (λ z. after y z ≡ false) ys (λ z k. c.transitive x y z e k) below),
          (below, h),
        )
  ]

  pub sort-IsSortedBy : (xs : List A) → IsSortedBy after (sort after xs)
  unfolding sort
  sort-IsSortedBy [] = tt
  sort-IsSortedBy (x ∷ xs) = insert-IsSortedBy x (sort after xs) (sort-IsSortedBy xs)

-- Order by a number first, the larger one in front, and by `tie` where the numbers are equal.
abbrev pub by_key {ℓ} : {A : Type ℓ} → (A → ℕ) → (A → A → Bool) → A → A → Bool
by_key key tie x y = ltb (key x) (key y) || (key x == key y && tie x y)

pub by_key-IsComparator {ℓ} :
    {A : Type ℓ} (key : A → ℕ) (tie : A → A → Bool)
    → IsComparator tie
    → IsComparator (by_key key tie)
by_key-IsComparator key tie c = record {
  asymmetric = λ x y h. asym (key x) (key y) (tie x y) (tie y x) (c.asymmetric x y) h;
  transitive = λ x y z h k.
      trans (key x) (key y) (key z) (tie x y) (tie y z) (tie x z) (c.transitive x y z) h k;
}
  where
    asym :
        (m n : ℕ) (s t : Bool)
        → (s ≡ true → t ≡ false)
        → (ltb m n || (m == n && s)) ≡ true
        → (ltb n m || (n == m && t)) ≡ false
    asym m n true t f h = let e = f refl in ground arith
    asym m n false t f h = ground arith

    trans :
        (l m n : ℕ) (s t u : Bool)
        → (s ≡ false → t ≡ false → u ≡ false)
        → (ltb l m || (l == m && s)) ≡ false
        → (ltb m n || (m == n && t)) ≡ false
        → (ltb l n || (l == n && u)) ≡ false
    trans l m n false false u f h k = let e = f refl refl in ground arith
    trans l m n true t u f h k = ground arith
    trans l m n false true u f h k = ground arith

pub any-insert {ℓ} :
    {A : Type ℓ} (after : A → A → Bool) (p : A → Bool) (x : A) (xs : List A)
    → any p (insert after x xs) ≡ (p x || any p xs)
unfolding insert any
any-insert after p x [] = refl
any-insert after p x (y ∷ ys) = ground (arith, any-insert after p x ys)

pub any-sort {ℓ} :
    {A : Type ℓ} (after : A → A → Bool) (p : A → Bool) (xs : List A)
    → any p (sort after xs) ≡ any p xs
unfolding sort any
any-sort after p [] = refl
any-sort after p (x ∷ xs) = rw (any-insert after p x (sort after xs), any-sort after p xs) refl
