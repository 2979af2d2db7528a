-- ===== src/Supervisor/HaulEfficiency/Laws.antt =====
-- haulEfficiency.ts: what the selection of trips promises.
use sih.Prelude.{
  ℕ, zero, suc, ◌+◌, ◌-◌, ◌≤◌, ◌<◌, ◌≡◌, refl, sym, ap, String, Bool, true, false, List, [], ◌∷◌,
  none, some, if◌then◌else◌, filter, any, drop, length, length-drop, ◌===◌, ◌==◌, eq_iff, arith,
  Bool-cases, Option-cases, inl, inr, All, All-pair, All-filter, All-filter_of, All-of_mem, Memᴰ,
}
use mathlib.Core.Option.{some-injective}
use sih.Prelude.Counting.{count_if}
use sih.Prelude.Sort.{sort, All-sort}
use sih.Prelude.Runtime.{Runtime}
use sih.Supervisor.HaulEfficiency.{
  TripRecord, EfficiencyTrip, is_comparable, to_efficiency_trip, trip_after, first_trips, numbered,
  slice_last, select_efficiency_trips,
}

count_if-drop {ℓ} :
    {A : Type ℓ} (p : A → Bool) (n : ℕ) (xs : List A) → count_if p (drop n xs) ≤ count_if p xs
unfolding count_if
count_if-drop p zero xs = omega arith
count_if-drop p (suc n) [] = omega arith
count_if-drop p (suc n) (x ∷ xs) = omega (arith, count_if-drop p n xs)

All-drop {ℓ κ} : {A : Type ℓ} (P : A → Type κ) (n : ℕ) (xs : List A) → All P xs → All P (drop n xs)
All-drop P zero xs h = h
All-drop P (suc n) [] h = tt
All-drop P (suc n) (x ∷ xs) (p, h) = All-drop P n xs h

count_if-slice_last {ℓ} :
    {A : Type ℓ} (p : A → Bool) (n : ℕ) (xs : List A) → count_if p (slice_last n xs) ≤ count_if p xs
unfolding slice_last
count_if-slice_last p n xs = ground (arith, count_if-drop p (length xs - n) xs)

All-slice_last {ℓ κ} :
    {A : Type ℓ} (P : A → Type κ) (n : ℕ) (xs : List A) → All P xs → All P (slice_last n xs)
unfolding slice_last
All-slice_last P n xs h = elim (Bool-cases (n == 0)) [
  | inl e ↦ rw e h
  | inr e ↦ rw e (All-drop P (length xs - n) xs h)
]

length-slice_last {ℓ} : {A : Type ℓ} (n : ℕ) (xs : List A) → 0 < n → length (slice_last n xs) ≤ n
unfolding slice_last
length-slice_last n xs h = ground (arith, length-drop (length xs - n) xs)

module _ (js : Runtime) where
  abbrev pub has_id : String → EfficiencyTrip js → Bool
  has_id id t = t.id === id

  abbrev pub IsNumbered : ℕ → List (EfficiencyTrip js) → Type 0
  IsNumbered n [] = Unit
  IsNumbered n (t ∷ trips) = (t.number ≡ n) × IsNumbered (suc n) trips

  to_efficiency_trip-number :
      (r : TripRecord js) (m n : ℕ) {t : EfficiencyTrip js}
      → to_efficiency_trip js r m ≡ some t
      → to_efficiency_trip js r n ≡ some (record t { number = n })
  unfolding to_efficiency_trip
  to_efficiency_trip-number r m n {t} e = elim (Bool-cases (is_comparable js r)) [
    | inl good ↦ rw (good) (
        ap (λ (u : EfficiencyTrip js). some (record u { number = n }))
          (some-injective _ _ (rw good at e)))
    | inr bad ↦ absurd (cc (rw bad at e))
  ]

  to_efficiency_trip-id :
      (r : TripRecord js) (n : ℕ) {t : EfficiencyTrip js}
      → to_efficiency_trip js r n ≡ some t
      → t.id ≡ r.trip_id
  unfolding to_efficiency_trip
  to_efficiency_trip-id r n {t} e = elim (Bool-cases (is_comparable js r)) [
    | inl good ↦ ap (λ (u : EfficiencyTrip js). u.id) (sym (some-injective _ _ (rw good at e)))
    | inr bad ↦ absurd (cc (rw bad at e))
  ]

  abbrev is_seen : String → List String → Bool
  is_seen k seen = any (λ id. id === k) seen

  first_trips_seen :
      (seen : List String) (r : TripRecord js) (rs : List (TripRecord js))
      → is_seen r.trip_id seen ≡ true
      → first_trips js seen (r ∷ rs) ≡ first_trips js seen rs
  unfolding first_trips
  first_trips_seen seen r rs hit = rw (hit, first_trips) refl

  first_trips_bad :
      (seen : List String) (r : TripRecord js) (rs : List (TripRecord js))
      → is_seen r.trip_id seen ≡ false
      → to_efficiency_trip js r 0 ≡ none
      → first_trips js seen (r ∷ rs) ≡ first_trips js (r.trip_id ∷ seen) rs
  unfolding first_trips
  first_trips_bad seen r rs new e = rw (new, e, first_trips) refl

  first_trips_good :
      (seen : List String) (r : TripRecord js) (rs : List (TripRecord js)) {t : EfficiencyTrip js}
      → is_seen r.trip_id seen ≡ false
      → to_efficiency_trip js r 0 ≡ some t
      → first_trips js seen (r ∷ rs) ≡ t ∷ first_trips js (r.trip_id ∷ seen) rs
  unfolding first_trips
  first_trips_good seen r rs new e = rw (new, e, first_trips) refl

  -- An id that has been seen does not come, and another one at most once.
  count_if-first_trips :
      (k : String) (seen : List String) (records : List (TripRecord js))
      → count_if (has_id k) (first_trips js seen records) + (if is_seen k seen then 1 else 0) ≤ 1
  unfolding first_trips count_if any
  count_if-first_trips k seen [] = ground arith
  count_if-first_trips k seen (r ∷ records) = elim (Bool-cases (is_seen r.trip_id seen)) [
    | inl hit ↦ rw (first_trips_seen seen r records hit) (count_if-first_trips k seen records)
    | inr new ↦
        let later = count_if-first_trips k (r.trip_id ∷ seen) records in
        elim (Option-cases (to_efficiency_trip js r 0)) [
          | inl e ↦ rw (first_trips_bad seen r records new e) (ground (arith, later))
          | inr (t, e) ↦
              let same : (t.id === k) ≡ (r.trip_id === k) =
                ap (λ id. id === k) (to_efficiency_trip-id r 0 e) in
              elim (Bool-cases (r.trip_id === k)) [
                | inl f ↦
                    let swap : is_seen k seen ≡ is_seen r.trip_id seen =
                      ap (λ j. is_seen j seen) (sym ((eq_iff r.trip_id k).0 f)) in
                    rw (first_trips_good seen r records new e)
                      (ground (arith, later, same, swap, new))
                | inr f ↦ rw (first_trips_good seen r records new e) (ground (arith, later, same))
              ]
        ]
  ]

  count_if-numbered :
      (k : String) (n : ℕ) (trips : List (EfficiencyTrip js))
      → count_if (has_id k) (numbered js n trips) ≡ count_if (has_id k) trips
  unfolding numbered count_if
  count_if-numbered k n [] = refl
  count_if-numbered k n (t ∷ trips) = omega (arith, count_if-numbered k (suc n) trips)

  length-numbered :
      (n : ℕ) (trips : List (EfficiencyTrip js)) → length (numbered js n trips) ≡ length trips
  unfolding numbered
  length-numbered n [] = refl
  length-numbered n (t ∷ trips) = ap suc (length-numbered (suc n) trips)

  numbered-IsNumbered :
      (n : ℕ) (trips : List (EfficiencyTrip js)) → IsNumbered n (numbered js n trips)
  unfolding numbered
  numbered-IsNumbered n [] = tt
  numbered-IsNumbered n (t ∷ trips) = (refl, numbered-IsNumbered (suc n) trips)

  module _ (records : List (TripRecord js)) (vehicle_id : String) where
    -- The record is one of the vehicle's own.
    abbrev IsOwn : TripRecord js → Type 0
    IsOwn r = Memᴰ r records × ((r.vehicle_id === vehicle_id) ≡ true)

    -- A trip that some record of the vehicle's own is turned into.
    abbrev pub IsMade : EfficiencyTrip js → Type 0
    IsMade t =
        (r : TripRecord js) × Memᴰ r records
        × ((r.vehicle_id === vehicle_id) ≡ true)
        × (to_efficiency_trip js r t.number ≡ some t)

    first_trips-IsMade :
        (seen : List String) (rs : List (TripRecord js))
        → All IsOwn rs
        → All IsMade (first_trips js seen rs)
    unfolding first_trips
    first_trips-IsMade seen [] h = tt
    first_trips-IsMade seen (r ∷ rs) ((m, own), h) = elim (Bool-cases (is_seen r.trip_id seen)) [
      | inl hit ↦ rw (first_trips_seen seen r rs hit) (first_trips-IsMade seen rs h)
      | inr new ↦ elim (Option-cases (to_efficiency_trip js r 0)) [
        | inl e ↦ rw (first_trips_bad seen r rs new e) (first_trips-IsMade (r.trip_id ∷ seen) rs h)
        | inr (t, e) ↦ rw (first_trips_good seen r rs new e) (
          (r, m, own, to_efficiency_trip-number r 0 t.number e),
          first_trips-IsMade (r.trip_id ∷ seen) rs h,
        )
      ]
    ]

    numbered-IsMade :
        (n : ℕ) (trips : List (EfficiencyTrip js))
        → All IsMade trips
        → All IsMade (numbered js n trips)
    unfolding numbered
    numbered-IsMade n [] h = tt
    numbered-IsMade n (t ∷ trips) ((r, m, own, e), h) =
        ((r, m, own, to_efficiency_trip-number r t.number n e), numbered-IsMade (suc n) trips h)

  -- For a limit above 0 the selected trips are at most as many, are numbered from 1, have
  -- different ids, and each is made from a record of the vehicle that passes the checks.
  pub select_efficiency_trips_sound :
      (records : List (TripRecord js)) (vehicle_id : String) (limit : ℕ)
      → 0 < limit
      → let trips = select_efficiency_trips js records vehicle_id limit in
        (length trips ≤ limit)
        × IsNumbered 1 trips
        × ((id : String) → count_if (λ t. t.id === id) trips ≤ 1)
        × All
            (λ t.
              (r : TripRecord js) × Memᴰ r records
              × ((r.vehicle_id === vehicle_id) ≡ true)
              × (to_efficiency_trip js r t.number ≡ some t))
            trips
  unfolding select_efficiency_trips
  select_efficiency_trips_sound records vehicle_id limit some_limit =
      let own = filter (λ r. r.vehicle_id === vehicle_id) records in
      let sorted = sort (trip_after js) own in
      let chosen = slice_last limit (first_trips js [] sorted) in
      let owned : All (IsOwn records vehicle_id) sorted =
        All-sort (trip_after js) (IsOwn records vehicle_id) own (
          All-pair _ _ own
            (All-filter_of (λ r. Memᴰ r records) (λ r. r.vehicle_id === vehicle_id) records
              (All-of_mem _ records (λ r m. m)))
            (All-filter (λ r. r.vehicle_id === vehicle_id) records)) in
      (
        omega (
          arith,
          length-numbered 1 chosen,
          length-slice_last limit (first_trips js [] sorted) some_limit,
        ),
        numbered-IsNumbered 1 chosen,
        λ id. omega (
          arith,
          count_if-numbered id 1 chosen,
          count_if-slice_last (has_id id) limit (first_trips js [] sorted),
          count_if-first_trips id [] sorted,
        ),
        numbered-IsMade records vehicle_id 1 chosen (
            All-slice_last (IsMade records vehicle_id) limit (first_trips js [] sorted)
              (first_trips-IsMade records vehicle_id [] sorted owned)),
      )
