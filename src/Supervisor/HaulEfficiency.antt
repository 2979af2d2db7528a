-- ===== src/Supervisor/HaulEfficiency.antt =====
-- frontend/src/supervisor/haulEfficiency.ts: which finished trips are compared, and their sums.
pub mod Laws
use sih.Prelude.{
  ℕ, zero, suc, ◌-◌, String, Bool, true, false, not, ◌&&◌, ◌||◌, List, [], ◌∷◌, map, Option, none,
  some, if◌then◌else◌, filter, any, drop, length, ltb, ◌==◌, ◌===◌,
}
use sih.Prelude.Runtime.{Runtime}
use sih.Prelude.Sort.{sort}
use sih.State.World.{DataMode}
use sih.Supervisor.ViewModel.Vehicles.{is_after}

abbrev pub displayed_trip_count : ℕ
displayed_trip_count = 15

abbrev pub efficiency_refresh_ms : ℕ
efficiency_refresh_ms = 30000

-- `xs.slice(-limit)`; `-0` is 0, from where the slice is the whole list.
unfoldable pub slice_last {ℓ} : {A : Type ℓ} → ℕ → List A → List A
slice_last limit xs = if limit == 0 then xs else drop (length xs - limit) xs

module _ (js : Runtime) where
  open js use {
    Num, decimal, is_finite, lt, le, eq, neg, add, sub, mul, div, max_num, min_num, locale_compare,
    to_fixed,
  }

  -- A trip as the backend reports it (types.ts, lines 128 to 149).
  pub record TripRecord : Type 0 where
    pub source : Option DataMode
    pub trip_id : String
    pub vehicle_id : String
    pub callsign : String
    pub pickup_node : String
    pub dump_node : String
    pub payload_tonnes : Num
    pub start_time_ms : Num
    pub end_time_ms : Num
    pub cycle_duration_s : Num
    pub loading_wait_s : Num
    pub loaded_travel_s : Num
    pub dumping_wait_s : Num
    pub empty_return_s : Num
    pub idle_s : Num
    pub distance_km : Num
    pub avg_speed_kmh : Num
    pub route_deviations_count : Num
    pub route_compliance_pct : Num
    pub fuel_litres_est : Num

  pub record EfficiencyTrip : Type 0 where
    pub id : String
    pub number : ℕ
    pub payload_t : Num
    pub fuel_l : Num
    pub distance_km : Num
    pub efficiency : Num
    pub duration_min : Num
    pub idle_min : Num
    pub avg_speed_kmh : Num
    pub ended_at_ms : Num
    pub source : Option DataMode

  abbrev zero_num : Num
  zero_num = decimal 0 0

  -- A finite number above 0.
  unfoldable pub is_positive : Num → Bool
  is_positive value = not (not (is_finite value) || le value zero_num)

  -- `Number.isFinite(new Date(ms).getTime())`: a `Date` holds 8.64e15 ms on either side of 1970.
  unfoldable pub is_date : Num → Bool
  is_date ms =
      is_finite ms && le (neg (decimal 8640000000000000 0)) ms && le ms (decimal 8640000000000000 0)

  abbrev efficiency_of : TripRecord → Num
  efficiency_of trip = div (mul trip.payload_tonnes trip.distance_km) trip.fuel_litres_est

  -- The guards of lines 22 to 26.
  unfoldable pub is_comparable : TripRecord → Bool
  unfolding is_positive is_date
  is_comparable trip =
      is_positive trip.payload_tonnes
      && is_positive trip.fuel_litres_est
      && is_positive trip.distance_km
      && is_finite trip.end_time_ms
      && is_date trip.end_time_ms
      && is_finite trip.cycle_duration_s
      && not (lt trip.cycle_duration_s zero_num)
      && is_finite (efficiency_of trip)

  unfoldable pub to_efficiency_trip : TripRecord → ℕ → Option EfficiencyTrip
  unfolding is_comparable
  to_efficiency_trip trip number =
      if not (is_comparable trip)
      then none
      else some (record {
        id = trip.trip_id;
        number = number;
        payload_t = trip.payload_tonnes;
        fuel_l = trip.fuel_litres_est;
        distance_km = trip.distance_km;
        efficiency = efficiency_of trip;
        duration_min = div trip.cycle_duration_s (decimal 60 0);
        idle_min =
            max_num zero_num
              (if is_finite trip.idle_s then div trip.idle_s (decimal 60 0) else zero_num);
        avg_speed_kmh =
            max_num zero_num
              (if is_finite trip.avg_speed_kmh then trip.avg_speed_kmh else zero_num);
        ended_at_ms = trip.end_time_ms;
        source = trip.source;
      })

  -- `a.end_time_ms - b.end_time_ms || a.trip_id.localeCompare(b.trip_id)` is above 0; a difference
  -- that is 0 or not a number is falsy.
  unfoldable pub trip_after : TripRecord → TripRecord → Bool
  trip_after a b =
      let difference = sub a.end_time_ms b.end_time_ms in
      if eq difference zero_num || not (eq difference difference)
      then is_after (locale_compare a.trip_id b.trip_id)
      else lt zero_num difference

  -- The function that `flatMap` gets, over the whole list, with the ids in `seen`.
  unfoldable pub first_trips : List String → List TripRecord → List EfficiencyTrip
  unfolding any to_efficiency_trip
  first_trips seen [] = []
  first_trips seen (r ∷ records) = elim (any (λ id. id === r.trip_id) seen) [
    | true ↦ first_trips seen records
    | false ↦
        let rest = first_trips (r.trip_id ∷ seen) records in
        elim (to_efficiency_trip r 0) [ none ↦ rest | some trip ↦ trip ∷ rest ]
  ]

  unfoldable pub numbered : ℕ → List EfficiencyTrip → List EfficiencyTrip
  numbered n [] = []
  numbered n (t ∷ trips) = record t { number = n } ∷ numbered (suc n) trips

  unfoldable pub select_efficiency_trips : List TripRecord → String → ℕ → List EfficiencyTrip
  unfolding filter sort trip_after first_trips numbered slice_last
  select_efficiency_trips records vehicle_id limit =
      let own = filter (λ r. r.vehicle_id === vehicle_id) records in
      numbered 1 (slice_last limit (first_trips [] (sort trip_after own)))

  -- `trips.reduce((sum, trip) => sum + part(trip), 0)`
  unfoldable pub total : (EfficiencyTrip → Num) → Num → List EfficiencyTrip → Num
  total part sum [] = sum
  total part sum (t ∷ trips) = total part (add sum (part t)) trips

  -- `Math.min(…)` and `Math.max(…)` of one value and more.
  abbrev extreme : (Num → Num → Num) → Num → List EfficiencyTrip → Num
  extreme pick best [] = best
  extreme pick best (t ∷ trips) = extreme pick (pick best t.payload_t) trips

  unfoldable pub best_trip : Option EfficiencyTrip → List EfficiencyTrip → Option EfficiencyTrip
  best_trip best [] = best
  best_trip none (t ∷ trips) = best_trip (some t) trips
  best_trip (some b) (t ∷ trips) =
      best_trip (some (if lt b.efficiency t.efficiency then t else b)) trips

  pub record TripSummary : Type 0 where
    pub count : ℕ
    pub total_payload : Num
    pub total_fuel : Num
    pub efficiency : Option Num
    pub fuel_per_tonne : Option Num
    pub average_payload : Option Num
    pub min_payload : Option Num
    pub max_payload : Option Num
    pub best : Option EfficiencyTrip

  abbrev first_and : (Num → List EfficiencyTrip → Num) → List EfficiencyTrip → Option Num
  first_and f [] = none
  first_and f (t ∷ trips) = some (f t.payload_t trips)

  unfoldable pub summarize_trips : List EfficiencyTrip → TripSummary
  unfolding total best_trip
  summarize_trips trips =
      let total_payload = total (λ t. t.payload_t) zero_num trips in
      let total_fuel = total (λ t. t.fuel_l) zero_num trips in
      let transport_work = total (λ t. mul t.payload_t t.distance_km) zero_num trips in
      record {
        count = length trips;
        total_payload = total_payload;
        total_fuel = total_fuel;
        efficiency = if lt zero_num total_fuel then some (div transport_work total_fuel) else none;
        fuel_per_tonne =
            if lt zero_num total_payload then some (div total_fuel total_payload) else none;
        average_payload =
            if length trips == 0 then none else some (div total_payload (decimal (length trips) 0));
        min_payload = first_and (extreme min_num) trips;
        max_payload = first_and (extreme max_num) trips;
        best = best_trip none trips;
      }

  -- `none` for `null` and `undefined`.
  unfoldable pub format_value : Option Num → ℕ → String
  format_value none digits = "—"
  format_value (some value) digits = if is_finite value then to_fixed value digits else "—"
