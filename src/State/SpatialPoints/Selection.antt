-- ===== src/State/SpatialPoints/Selection.antt =====
-- spatialPoints.ts, lines 84 to 95: the loop over the rounds ends, and selects all that fits.
use sih.Prelude.{
  ℕ, zero, suc, ◌+◌, ◌≤◌, ◌<◌, ◌≡◌, refl, sym, ◌∙◌, subst, Bool, true, false, List, [], ◌∷◌, some,
  get_elem?, All-append, length, ltb, arith, Bool-cases, Option-cases, inl, inr, All,
}
use mathlib.Core.Option.{some-injective}
use sih.Prelude.Counting.{count_if}
use sih.Prelude.Runtime.{Runtime}
use sih.State.World.{SpatialPoint}
use sih.State.SpatialPoints.{Bucket, offer, offer_all, select, max_rendered_points}
use sih.State.SpatialPoints.Rounds.{
  get_elem?-All, turn, until, whole, IsSpent, offer_all-IsRound, count_if-take, count_if-take-le,
  count_if-take-all,
}

module _ (js : Runtime) where
  until-turn :
      (p : SpatialPoint js → Bool) (i : ℕ) (buckets : List (Bucket js))
      → until js p (suc i) buckets ≡ until js p i buckets + turn js p i buckets
  until-turn p i [] = refl
  until-turn p i (b ∷ buckets) = omega (arith, count_if-take p i b.points, until-turn p i buckets)

  until-whole :
      (p : SpatialPoint js → Bool) (i : ℕ) (buckets : List (Bucket js))
      → until js p i buckets ≤ whole js p buckets
  until-whole p i [] = omega arith
  until-whole p i (b ∷ buckets) =
      omega (arith, count_if-take-le p i b.points, until-whole p i buckets)

  until-spent :
      (p : SpatialPoint js → Bool) (i : ℕ) (buckets : List (Bucket js))
      → All (IsSpent js i) buckets
      → until js p i buckets ≡ whole js p buckets
  until-spent p i [] h = refl
  until-spent p i (b ∷ buckets) (e, h) =
      omega (arith, count_if-take-all p i b.points e, until-spent p i buckets h)

  -- Before the round at an index.
  pub record IsUnderWay (i : ℕ) (buckets : List (Bucket js)) (s : List (SpatialPoint js))
      : Type 0 where
    pub most : (p : SpatialPoint js → Bool) → count_if p s ≤ until js p i buckets
    pub exact :
        (p : SpatialPoint js → Bool)
        → length s < max_rendered_points
        → count_if p s ≡ until js p i buckets
    pub room : length s ≤ max_rendered_points

  until-zero : (p : SpatialPoint js → Bool) (buckets : List (Bucket js)) → until js p 0 buckets ≡ 0
  unfolding count_if
  until-zero p [] = refl
  until-zero p (b ∷ buckets) = omega (arith, until-zero p buckets)

  pub begin-IsUnderWay : (buckets : List (Bucket js)) → IsUnderWay 0 buckets []
  unfolding count_if
  begin-IsUnderWay buckets = record {
    most = λ p. omega arith;
    exact = λ p h. sym (until-zero p buckets);
    room = omega arith;
  }

  -- What is selected in the end: nothing that was not there, not too much, and all that fits.
  pub record IsSelection (buckets : List (Bucket js)) (s : List (SpatialPoint js)) : Type 0 where
    pub most : (p : SpatialPoint js → Bool) → count_if p s ≤ whole js p buckets
    pub exact :
        (p : SpatialPoint js → Bool)
        → length s < max_rendered_points
        → count_if p s ≡ whole js p buckets
    pub room : length s ≤ max_rendered_points

  round-IsUnderWay :
      (i : ℕ) (buckets : List (Bucket js)) (s : List (SpatialPoint js))
      → IsUnderWay i buckets s
      → IsUnderWay (suc i) buckets (offer_all js i buckets (s, false)).0
  round-IsUnderWay i buckets s w =
      let r = offer_all-IsRound js i buckets (s, false) in
      record {
        most = λ p. omega (arith, until-turn p i buckets, r.most p, w.most p);
        exact = λ p h.
            omega (arith, until-turn p i buckets, r.exact p h, w.exact p (omega (arith, r.grows)));
        room = r.room w.room;
      }

  select_goes_on :
      (fuel i : ℕ) (buckets : List (Bucket js)) (s : List (SpatialPoint js))
      → ltb (length s) max_rendered_points ≡ true
      → (offer_all js i buckets (s, false)).1 ≡ true
      → select js (suc fuel) i buckets s
        ≡ select js fuel (suc i) buckets (offer_all js i buckets (s, false)).0
  unfolding select
  select_goes_on fuel i buckets s free found = rw (free, found, select) refl

  -- With enough fuel the loop ends with a selection.
  pub select-IsSelection :
      (fuel i : ℕ) (buckets : List (Bucket js)) (s : List (SpatialPoint js))
      → IsUnderWay i buckets s
      → max_rendered_points < fuel + length s
      → (out : List (SpatialPoint js)) × (select js fuel i buckets s ≡ some out)
        × IsSelection buckets out
  unfolding select
  select-IsSelection zero i buckets s w enough = absurd (omega (arith, w.room))
  select-IsSelection (suc fuel) i buckets s w enough =
      elim (Bool-cases (ltb (length s) max_rendered_points)) [
        | inr full ↦ (
          s,
          rw (full, select) refl,
          record {
            most = λ p. omega (arith, w.most p, until-whole p i buckets);
            exact = λ p h. absurd (ground arith);
            room = w.room;
          },
        )
        | inl free ↦
            let r = offer_all-IsRound js i buckets (s, false) in
            let t = (offer_all js i buckets (s, false)).0 in
            let next = round-IsUnderWay i buckets s w in
            elim (Bool-cases (offer_all js i buckets (s, false)).1) [
              | inl found ↦
                  let (out, e, good) =
                    select-IsSelection fuel (suc i) buckets t next
                      (omega (arith, r.noted refl found)) in
                  (out, select_goes_on fuel i buckets s free found ∙ e, good)
              | inr missing ↦ (
                t,
                rw (free, missing, select) refl,
                record {
                  most = λ p. omega (arith, next.most p, until-whole p (suc i) buckets);
                  exact = λ p h. omega (
                    arith,
                    next.exact p h,
                    until-turn p i buckets,
                    until-whole p (suc i) buckets,
                    until-spent p i buckets (r.missed missing h),
                  );
                  room = next.room;
                },
              )
            ]
      ]

  offer-All {κ} :
      (P : SpatialPoint js → Type κ) (i : ℕ) (b : Bucket js) (s : List (SpatialPoint js) × Bool)
      → All P b.points
      → All P s.0
      → All P (offer js i b s).0
  unfolding offer
  offer-All P i b s h k = elim (Option-cases (get_elem? b.points i)) [
    | inl e ↦ rw (e, offer) k
    | inr (x, e) ↦ elim (Bool-cases (ltb (length s.0) max_rendered_points)) [
      | inl free ↦
          rw (e, free, offer) (All-append P s.0 (x ∷ []) k (get_elem?-All P b.points i e h, tt))
      | inr full ↦ rw (e, full, offer) k
    ]
  ]

  offer_all-All {κ} :
      (P : SpatialPoint js → Type κ) (i : ℕ) (buckets : List (Bucket js))
      (s : List (SpatialPoint js) × Bool)
      → All (λ b. All P b.points) buckets
      → All P s.0
      → All P (offer_all js i buckets s).0
  unfolding offer_all
  offer_all-All P i [] s h k = k
  offer_all-All P i (b ∷ buckets) s (q, h) k =
      offer_all-All P i buckets (offer js i b s) h (offer-All P i b s q k)

  -- What is selected comes from the buckets.
  pub select-All {κ} :
      (P : SpatialPoint js → Type κ) (fuel i : ℕ) (buckets : List (Bucket js))
      (s : List (SpatialPoint js)) {out : List (SpatialPoint js)}
      → select js fuel i buckets s ≡ some out
      → All (λ b. All P b.points) buckets
      → All P s
      → All P out
  unfolding select
  select-All P zero i buckets s e h k = absurd (cc)
  select-All P (suc fuel) i buckets s {out} e h k =
      let t = offer_all js i buckets (s, false) in
      let good = offer_all-All P i buckets (s, false) h k in
      elim (Bool-cases (ltb (length s) max_rendered_points)) [
        | inr full ↦ subst (All P) (some-injective _ _ (rw (full, select) at e)) k
        | inl free ↦ elim (Bool-cases t.1) [
          | inl found ↦
              select-All P fuel (suc i) buckets t.0
                (sym (select_goes_on fuel i buckets s free found) ∙ e) h good
          | inr missing ↦ subst (All P) (some-injective _ _ (rw (free, missing, select) at e)) good
        ]
      ]
