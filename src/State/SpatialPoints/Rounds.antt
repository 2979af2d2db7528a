-- ===== src/State/SpatialPoints/Rounds.antt =====
-- spatialPoints.ts, lines 78 to 94: the sensors take turns until the display is full.
use sih.Prelude.{
  ℕ, zero, suc, ◌+◌, ◌≤◌, ◌<◌, ◌≡◌, refl, subst, Bool, true, false, List, [], ◌∷◌, Option, none,
  some, if◌then◌else◌, get_elem?, take, length, length-append, ltb, arith, Bool-cases, Option-cases,
  inl, inr, All,
}
use sih.Prelude.Counting.{count_if, count_if-append}
use sih.Prelude.Runtime.{Runtime}
use sih.State.World.{SpatialPoint}
use sih.State.SpatialPoints.{Bucket, offer, offer_all, max_rendered_points}

-- The number of elements at an index that pass a test.
abbrev one_at {ℓ} : {A : Type ℓ} → (A → Bool) → Option A → ℕ
one_at p none = 0
one_at p (some x) = if p x then 1 else 0

pub count_if-take {ℓ} :
    {A : Type ℓ} (p : A → Bool) (i : ℕ) (xs : List A)
    → count_if p (take (suc i) xs) ≡ count_if p (take i xs) + one_at p (get_elem? xs i)
unfolding count_if
count_if-take p zero [] = refl
count_if-take p (suc i) [] = refl
count_if-take p zero (x ∷ xs) = omega arith
count_if-take p (suc i) (x ∷ xs) = omega (arith, count_if-take p i xs)

pub count_if-take-le {ℓ} :
    {A : Type ℓ} (p : A → Bool) (i : ℕ) (xs : List A) → count_if p (take i xs) ≤ count_if p xs
unfolding count_if
count_if-take-le p zero xs = omega arith
count_if-take-le p (suc i) [] = omega arith
count_if-take-le p (suc i) (x ∷ xs) = omega (arith, count_if-take-le p i xs)

pub count_if-take-all {ℓ} :
    {A : Type ℓ} (p : A → Bool) (i : ℕ) (xs : List A)
    → length xs ≤ i
    → count_if p (take i xs) ≡ count_if p xs
unfolding count_if
count_if-take-all p zero [] h = refl
count_if-take-all p (suc i) [] h = refl
count_if-take-all p zero (x ∷ xs) h = absurd (omega arith)
count_if-take-all p (suc i) (x ∷ xs) h = omega (arith, count_if-take-all p i xs (omega arith))

get_elem?-none {ℓ} : {A : Type ℓ} (xs : List A) (i : ℕ) → get_elem? xs i ≡ none → length xs ≤ i
get_elem?-none [] i h = omega arith
get_elem?-none (x ∷ xs) zero h = absurd (cc)
get_elem?-none (x ∷ xs) (suc i) h = omega (arith, get_elem?-none xs i h)

pub get_elem?-All {ℓ κ} :
    {A : Type ℓ} (P : A → Type κ) (xs : List A) (i : ℕ) {x : A}
    → get_elem? xs i ≡ some x
    → All P xs
    → P x
get_elem?-All P [] i h a = absurd (cc)
get_elem?-All P (y ∷ xs) zero {x} h (p, a) = subst P (cc) p
get_elem?-All P (y ∷ xs) (suc i) h (p, a) = get_elem?-All P xs i h a

module _ (js : Runtime) where
  -- How many points of the buckets pass a test: at an index, before it, and in all.
  abbrev pub turn : (SpatialPoint js → Bool) → ℕ → List (Bucket js) → ℕ
  turn p i [] = 0
  turn p i (b ∷ buckets) = one_at p (get_elem? b.points i) + turn p i buckets

  abbrev pub until : (SpatialPoint js → Bool) → ℕ → List (Bucket js) → ℕ
  until p i [] = 0
  until p i (b ∷ buckets) = count_if p (take i b.points) + until p i buckets

  abbrev pub whole : (SpatialPoint js → Bool) → List (Bucket js) → ℕ
  whole p [] = 0
  whole p (b ∷ buckets) = count_if p b.points + whole p buckets

  abbrev pub IsSpent : ℕ → Bucket js → Type 0
  IsSpent i b = length b.points ≤ i

  abbrev pub State : Type 0
  State = List (SpatialPoint js) × Bool

  -- What a round at an index does to the selected points and to `found`.
  pub record IsRound (i : ℕ) (buckets : List (Bucket js)) (s t : State) : Type 0 where
    pub most : (p : SpatialPoint js → Bool) → count_if p t.0 ≤ count_if p s.0 + turn p i buckets
    pub exact :
        (p : SpatialPoint js → Bool)
        → length t.0 < max_rendered_points
        → count_if p t.0 ≡ count_if p s.0 + turn p i buckets
    pub room : length s.0 ≤ max_rendered_points → length t.0 ≤ max_rendered_points
    pub grows : length s.0 ≤ length t.0
    pub noted : s.1 ≡ false → t.1 ≡ true → length s.0 < length t.0
    pub kept : s.1 ≡ true → t.1 ≡ true
    pub missed : t.1 ≡ false → length t.0 < max_rendered_points → All (IsSpent i) buckets

  offer-IsRound : (i : ℕ) (b : Bucket js) (s : State) → IsRound i (b ∷ []) s (offer js i b s)
  unfolding offer
  offer-IsRound i b s = elim (Option-cases (get_elem? b.points i)) [
    | inl e ↦
        rw (e, offer)
          record {
            most = λ p. rw e (omega arith);
            exact = λ p h. rw e (omega arith);
            room = λ h. h;
            grows = omega arith;
            noted = λ h k. absurd (cc);
            kept = λ h. h;
            missed = λ h k. (get_elem?-none b.points i e, tt);
          }
    | inr (x, e) ↦ elim (Bool-cases (ltb (length s.0) max_rendered_points)) [
      | inl free ↦
          rw (e, free, offer)
            record {
              most = λ p. rw (e, count_if-append p s.0 (x ∷ [])) (unfold count_if in omega arith);
              exact =
                  λ p h. rw (e, count_if-append p s.0 (x ∷ [])) (unfold count_if in omega arith);
              room = λ h. rw (length-append s.0 (x ∷ [])) (ground arith);
              grows = rw (length-append s.0 (x ∷ [])) (omega arith);
              noted = λ h k. rw (length-append s.0 (x ∷ [])) (omega arith);
              kept = λ h. refl;
              missed = λ h k. absurd (cc);
            }
      | inr full ↦
          rw (e, full, offer)
            record {
              most = λ p. omega arith;
              exact = λ p h. absurd (ground arith);
              room = λ h. h;
              grows = omega arith;
              noted = λ h k. absurd (cc);
              kept = λ h. h;
              missed = λ h k. absurd (ground arith);
            }
    ]
  ]

  pub offer_all-IsRound :
      (i : ℕ) (buckets : List (Bucket js)) (s : State)
      → IsRound i buckets s (offer_all js i buckets s)
  unfolding offer_all
  offer_all-IsRound i [] s = record {
    most = λ p. omega arith;
    exact = λ p h. omega arith;
    room = λ h. h;
    grows = omega arith;
    noted = λ h k. absurd (cc);
    kept = λ h. h;
    missed = λ h k. tt;
  }
  offer_all-IsRound i (b ∷ buckets) s =
      let t = offer js i b s in
      let one = offer-IsRound i b s in
      let rest = offer_all-IsRound i buckets t in
      record {
        most = λ p. omega (arith, one.most p, rest.most p);
        exact = λ p h. omega (arith, one.exact p (omega (arith, rest.grows)), rest.exact p h);
        room = λ h. rest.room (one.room h);
        grows = omega (arith, one.grows, rest.grows);
        noted = λ h k. elim (Bool-cases t.1) [
          | inl found ↦ omega (arith, one.noted h found, rest.grows)
          | inr missing ↦ omega (arith, one.grows, rest.noted missing k)
        ];
        kept = λ h. rest.kept (one.kept h);
        missed = λ h k. elim (Bool-cases t.1) [
          | inl found ↦ absurd (cc (rest.kept found, h))
          | inr missing ↦ ((one.missed missing (omega (arith, rest.grows))).0, rest.missed h k)
        ];
      }
