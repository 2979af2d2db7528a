-- ===== src/Prelude/Lists.antt =====
-- Array methods of the sources over `List`: Boolean predicates, native lengths and indices.
use Prim.Native.Nat.{ℕ, zero, suc, ◌+◌, ◌-◌, ◌≤◌, ◌<◌, min}
use mathlib.Core.Path.{◌≡◌, refl, sym, ap, ◌∙◌}
use mathlib.Core.Logic.{◌↔◌, inl, inr}
use mathlib.Core.Bool.{Bool, true, false, ◌&&◌, ◌||◌}
use mathlib.Core.Option.{Option, none, some}
use mathlib.Core.List.{List, [], ◌∷◌, ◌++◌, map, Memᴰ}
use native.Mathlib.Omega.{arith}
use sih.Prelude.Tests.{if◌then◌else◌, Bool-cases, is_some, Option-cases}

module _ {ℓ} {A : Type ℓ} where
  abbrev pub length : List A → ℕ
  length [] = 0
  length (x ∷ xs) = suc (length xs)

  abbrev pub get_elem? : List A → ℕ → Option A
  get_elem? [] i = none
  get_elem? (x ∷ xs) zero = some x
  get_elem? (x ∷ xs) (suc i) = get_elem? xs i

  abbrev pub take : ℕ → List A → List A
  take zero xs = []
  take (suc n) [] = []
  take (suc n) (x ∷ xs) = x ∷ take n xs

  abbrev pub drop : ℕ → List A → List A
  drop zero xs = xs
  drop (suc n) [] = []
  drop (suc n) (x ∷ xs) = drop n xs

  -- `xs.filter(p)`
  unfoldable pub filter : (A → Bool) → List A → List A
  filter p [] = []
  filter p (x ∷ xs) = if p x then x ∷ filter p xs else filter p xs

  -- `xs.every(p)`
  unfoldable pub every : (A → Bool) → List A → Bool
  every p [] = true
  every p (x ∷ xs) = p x && every p xs

  -- `xs.some(p)`
  unfoldable pub any : (A → Bool) → List A → Bool
  any p [] = false
  any p (x ∷ xs) = p x || any p xs

  -- `xs.find(p)`
  unfoldable pub find : (A → Bool) → List A → Option A
  find p [] = none
  find p (x ∷ xs) = if p x then some x else find p xs

  -- The last element that passes, as a `Map` that was filled in order gives it.
  unfoldable pub find_last : (A → Bool) → List A → Option A
  find_last p [] = none
  find_last p (x ∷ xs) =
      let later = find_last p xs in if is_some later then later else if p x then some x else none

  pub length-append : (xs ys : List A) → length (xs ++ ys) ≡ length xs + length ys
  length-append [] ys = omega arith
  length-append (x ∷ xs) ys = omega (arith, length-append xs ys)

  pub length-filter : (p : A → Bool) (xs : List A) → length (filter p xs) ≤ length xs
  unfolding filter
  length-filter p [] = omega arith
  length-filter p (x ∷ xs) = ground (arith, length-filter p xs)

  pub length-take : (n : ℕ) (xs : List A) → length (take n xs) ≡ min n (length xs)
  length-take zero xs = omega arith
  length-take (suc n) [] = omega arith
  length-take (suc n) (x ∷ xs) = omega (arith, length-take n xs)

  pub length-drop : (n : ℕ) (xs : List A) → length (drop n xs) ≡ length xs - n
  length-drop zero xs = omega arith
  length-drop (suc n) [] = omega arith
  length-drop (suc n) (x ∷ xs) = omega (arith, length-drop n xs)

  -- What `find` returns passes the test and is an element.
  pub find_sound :
      (p : A → Bool) (xs : List A) {x : A} → find p xs ≡ some x → (p x ≡ true) × Memᴰ x xs
  unfolding find
  find_sound p [] h = cc
  find_sound p (y ∷ xs) {x} h = elim (Bool-cases (p y)) [
    | inl e ↦ let same : y ≡ x = ground arith in (rw (← same) e, Memᴰ.head (sym same))
    | inr e ↦ let rest = find_sound p xs (rw e at h) in (rest.0, Memᴰ.tail rest.1)
  ]

  pub find_last_sound :
      (p : A → Bool) (xs : List A) {x : A} → find_last p xs ≡ some x → (p x ≡ true) × Memᴰ x xs
  unfolding find_last
  find_last_sound p [] h = cc
  find_last_sound p (y ∷ xs) {x} h = elim (Option-cases (find_last p xs)) [
    | inr (z, e) ↦
        let same : z ≡ x = ground (arith, rw e at h) in
        let (holds, m) = find_last_sound p xs (e ∙ ap some same) in (holds, Memᴰ.tail m)
    | inl e ↦ elim (Bool-cases (p y)) [
      | inl good ↦
          let same : x ≡ y = ground (arith, rw (e, good) at h) in (rw same good, Memᴰ.head same)
      | inr bad ↦ absurd (cc (rw (e, bad) at h))
    ]
  ]

  pub find-none : (p : A → Bool) (xs : List A) → find p xs ≡ none → any p xs ≡ false
  unfolding find any
  find-none p [] h = refl
  find-none p (x ∷ xs) h = ground (arith, find-none p xs)

  pub get_elem?-some : (xs : List A) (i : ℕ) → i < length xs → (x : A) × (get_elem? xs i ≡ some x)
  get_elem?-some [] i h = absurd (omega arith)
  get_elem?-some (x ∷ xs) zero h = (x, refl)
  get_elem?-some (x ∷ xs) (suc i) h = get_elem?-some xs i (omega arith)

module _ {ℓ κ} {A : Type ℓ} where
  abbrev pub All : (A → Type κ) → List A → Type κ
  All P [] = Unit
  All P (x ∷ xs) = P x × All P xs

  pub All-append : (P : A → Type κ) (xs ys : List A) → All P xs → All P ys → All P (xs ++ ys)
  All-append P [] ys hx hy = hy
  All-append P (x ∷ xs) ys (p, hx) hy = (p, All-append P xs ys hx hy)

  pub All-mem : (P : A → Type κ) {x : A} (xs : List A) → All P xs → Memᴰ x xs → P x
  All-mem P [] h m = elim m [ ]
  All-mem P (y ∷ xs) (p, h) (Memᴰ.head e) = rw e p
  All-mem P (y ∷ xs) (p, h) (Memᴰ.tail m) = All-mem P xs h m

  pub All-if :
      (P : A → Type κ) (b : Bool) (xs ys : List A)
      → (b ≡ true → All P xs)
      → (b ≡ false → All P ys)
      → All P (if b then xs else ys)
  All-if P true xs ys f g = f refl
  All-if P false xs ys f g = g refl

  pub All-of_mem : (P : A → Type κ) (xs : List A) → ((x : A) → Memᴰ x xs → P x) → All P xs
  All-of_mem P [] f = tt
  All-of_mem P (x ∷ xs) f = (f x (Memᴰ.head refl), All-of_mem P xs (λ y m. f y (Memᴰ.tail m)))

  pub All-pair :
      (P : A → Type κ) (Q : A → Type κ) (xs : List A)
      → All P xs
      → All Q xs
      → All (λ x. P x × Q x) xs
  All-pair P Q [] hp hq = tt
  All-pair P Q (x ∷ xs) (p, hp) (q, hq) = ((p, q), All-pair P Q xs hp hq)

  pub All-tabulate : (P : A → Type κ) (xs : List A) → ((x : A) → P x) → All P xs
  All-tabulate P [] f = tt
  All-tabulate P (x ∷ xs) f = (f x, All-tabulate P xs f)

module _ {ℓ κ μ} {A : Type ℓ} where
  pub All-imp :
      (P : A → Type κ) {Q : A → Type μ} (xs : List A) → ((x : A) → P x → Q x) → All P xs → All Q xs
  All-imp P [] f h = tt
  All-imp P (x ∷ xs) f (p, h) = (f x p, All-imp P xs f h)

module _ {ℓ κ} {A : Type ℓ} {B : Type κ} where
  pub length-map : (f : A → B) (xs : List A) → length (map f xs) ≡ length xs
  length-map f [] = refl
  length-map f (x ∷ xs) = ap suc (length-map f xs)

  pub mem-map : (f : A → B) {x : A} (xs : List A) → Memᴰ x xs → Memᴰ (f x) (map f xs)
  mem-map f [] m = elim m [ ]
  mem-map f (y ∷ xs) (Memᴰ.head e) = Memᴰ.head (ap f e)
  mem-map f (y ∷ xs) (Memᴰ.tail m) = Memᴰ.tail (mem-map f xs m)

  pub All-map {μ} :
      (P : B → Type μ) (f : A → B) (xs : List A) → All (λ x. P (f x)) xs → All P (map f xs)
  All-map P f [] h = tt
  All-map P f (x ∷ xs) (p, h) = (p, All-map P f xs h)

module _ {ℓ} {A : Type ℓ} where
  pub All-filter : (p : A → Bool) (xs : List A) → All (λ x. p x ≡ true) (filter p xs)
  unfolding filter
  All-filter p [] = tt
  All-filter p (x ∷ xs) = elim (Bool-cases (p x)) [
    | inl e ↦ rw e (e, All-filter p xs)
    | inr e ↦ rw e (All-filter p xs)
  ]

  pub All-filter_of {κ} :
      (P : A → Type κ) (p : A → Bool) (xs : List A) → All P xs → All P (filter p xs)
  unfolding filter
  All-filter_of P p [] h = tt
  All-filter_of P p (x ∷ xs) (q, h) = elim (Bool-cases (p x)) [
    | inl e ↦ rw e (q, All-filter_of P p xs h)
    | inr e ↦ rw e (All-filter_of P p xs h)
  ]

  pub mem-filter_of :
      (p : A → Bool) {x : A} (xs : List A) → Memᴰ x xs → p x ≡ true → Memᴰ x (filter p xs)
  unfolding filter
  mem-filter_of p [] m h = elim m [ ]
  mem-filter_of p {x} (y ∷ xs) (Memᴰ.head e) h = let here : p y ≡ true = cc in rw here (Memᴰ.head e)
  mem-filter_of p (y ∷ xs) (Memᴰ.tail m) h = elim (Bool-cases (p y)) [
    | inl e ↦ rw e (Memᴰ.tail (mem-filter_of p xs m h))
    | inr e ↦ rw e (mem-filter_of p xs m h)
  ]

  pub mem-append_left : {x : A} (xs ys : List A) → Memᴰ x xs → Memᴰ x (xs ++ ys)
  mem-append_left [] ys m = elim m [ ]
  mem-append_left (y ∷ xs) ys (Memᴰ.head e) = Memᴰ.head e
  mem-append_left (y ∷ xs) ys (Memᴰ.tail m) = Memᴰ.tail (mem-append_left xs ys m)

  pub mem-append_right : {x : A} (xs ys : List A) → Memᴰ x ys → Memᴰ x (xs ++ ys)
  mem-append_right [] ys m = m
  mem-append_right (y ∷ xs) ys m = Memᴰ.tail (mem-append_right xs ys m)

  pub any-mem : (p : A → Bool) {x : A} (xs : List A) → Memᴰ x xs → p x ≡ true → any p xs ≡ true
  unfolding any
  any-mem p [] m h = elim m [ ]
  any-mem p (y ∷ xs) (Memᴰ.head e) h = let here : p y ≡ true = cc in rw here refl
  any-mem p (y ∷ xs) (Memᴰ.tail m) h = ground (arith, any-mem p xs m h)

  -- `every` decides `All`.
  pub every_iff : (p : A → Bool) (xs : List A) → (every p xs ≡ true) ↔ All (λ x. p x ≡ true) xs
  unfolding every
  every_iff p [] = (λ _. tt, λ _. refl)
  every_iff p (x ∷ xs) =
      let (to, from) = every_iff p xs in
      (λ h. (ground arith, to (ground arith)), λ h. rw (h.0, from h.1) refl)
