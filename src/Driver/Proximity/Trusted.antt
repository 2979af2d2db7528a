-- ===== src/Driver/Proximity/Trusted.antt =====
-- ProximityWidget.tsx and rangeReadings.ts: the two filters of trusted readings agree.
use sih.State.RangeReadings.Laws.{is_listed, is_listed-cons}
use sih.Prelude.{
  ◌≤◌, ◌≡◌, refl, sym, ap, ◌∙◌, String, Bool, true, false, ◌&&◌, List, [], ◌∷◌, Option, none, some,
  if◌then◌else◌, filter, any, find_last, is_some, ◌===◌, arith, Bool-cases, Option-cases, inl, inr,
}
use sih.Prelude.Counting.{count_if}
use sih.Prelude.Runtime.{Runtime}
use sih.State.World.{RangeReading, SensorHealth}
use sih.State.RangeReadings.{
  is_reporting, is_usable_range_reading, usable_range_readings, available_sensors,
  available_range_readings,
}
use sih.Driver.Proximity.{is_trusted, trusted_readings}

filter-filter {ℓ} :
    {A : Type ℓ} (p q r : A → Bool) (xs : List A)
    → ((x : A) → r x ≡ (p x && q x))
    → filter r xs ≡ filter p (filter q xs)
unfolding filter
filter-filter p q r [] agree = refl
filter-filter p q r (x ∷ xs) agree = ground (arith, agree x, filter-filter p q r xs agree)

module _ (js : Runtime) where
  abbrev is_of : String → SensorHealth js → Bool
  is_of id h = h.sensor_id === id

  abbrev reports : Option (SensorHealth js) → Bool
  reports none = false
  reports (some h) = is_reporting h.status

  later_or_none : (o : Option (SensorHealth js)) → (if is_some o then o else none) ≡ o
  later_or_none none = refl
  later_or_none (some h) = refl

  absent :
      (id : String) (health : List (SensorHealth js))
      → count_if (is_of id) health ≡ 0
      → (find_last (is_of id) health ≡ none) × (is_listed js id health ≡ false)
  unfolding count_if find_last available_sensors filter any
  absent id [] h = (refl, refl)
  absent id (x ∷ health) h =
      let (gone, away) = absent id health (ground (arith, h)) in
      let other : is_of id x ≡ false = ground (arith, h) in
      (rw (gone, other) refl, is_listed-cons js id x health ∙ rw (other, away) (ground arith))

  -- Where an id is there once at most, its last report is its only one.
  last_only :
      (id : String) (health : List (SensorHealth js))
      → count_if (is_of id) health ≤ 1
      → reports (find_last (is_of id) health) ≡ is_listed js id health
  unfolding count_if find_last available_sensors filter any
  last_only id [] h = refl
  last_only id (x ∷ health) h = elim (Bool-cases (is_of id x)) [
    | inl here ↦
        let (gone, away) = absent id health (ground (arith, h)) in
        rw (gone, here) (sym (is_listed-cons js id x health ∙ rw (here, away) (ground arith)))
    | inr other ↦
        let later = last_only id health (ground (arith, h)) in
        rw other (
          ap reports (later_or_none (find_last (is_of id) health))
          ∙ later
          ∙ sym (is_listed-cons js id x health ∙ rw other (ground arith)))
  ]

  is_trusted-eq :
      (health : List (SensorHealth js)) (r : RangeReading js)
      → count_if (is_of r.sensor_id) health ≤ 1
      → is_trusted js health r ≡ (is_listed js r.sensor_id health && is_usable_range_reading js r)
  unfolding is_trusted
  is_trusted-eq health r h =
      let same = last_only r.sensor_id health h in
      elim (Option-cases (find_last (is_of r.sensor_id) health)) [
        | inl e ↦
            rw (e, is_trusted)
              (ap (λ b. b && is_usable_range_reading js r) (ap reports (sym e) ∙ same))
        | inr (x, e) ↦
            rw (e, is_trusted)
              (ap (λ b. b && is_usable_range_reading js r) (ap reports (sym e) ∙ same))
      ]

  -- Where no sensor reports its health twice, the proximity widget trusts exactly the readings
  -- that the rest of the driver's page takes for available.
  pub trusted_readings-available :
      (readings : List (RangeReading js)) (health : List (SensorHealth js)) (connected : Bool)
      → ((id : String) → count_if (λ h. h.sensor_id === id) health ≤ 1)
      → trusted_readings js readings health connected
        ≡ available_range_readings js readings health connected
  unfolding trusted_readings available_range_readings usable_range_readings
  trusted_readings-available readings health false unique = refl
  trusted_readings-available readings health true unique =
      filter-filter (λ r. is_listed js r.sensor_id health) (is_usable_range_reading js)
        (is_trusted js health) readings (λ r. is_trusted-eq health r (unique r.sensor_id))
