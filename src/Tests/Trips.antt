-- ===== src/Tests/Trips.antt =====
-- Finished trips of two vehicles (frontend/src/supervisor/haulEfficiency.ts).
use sih.Prelude.{
  ℕ, ◌≡◌, ◌≤◌, refl, String, true, List, [], ◌∷◌, none, some, All, Memᴰ, length, filter, any, map,
  ◌===◌, arith,
}
use sih.Prelude.Counting.{count_if}
use sih.Prelude.Sort.{sort, insert}
use sih.Tests.Engine.{plus, engine}
use sih.Supervisor.HaulEfficiency.{
  TripRecord, is_positive, is_date, is_comparable, to_efficiency_trip, trip_after, first_trips,
  numbered, slice_last, select_efficiency_trips, summarize_trips, total, best_trip,
}
use sih.Supervisor.HaulEfficiency.Laws.{IsNumbered, select_efficiency_trips_sound}

abbrev trip : String → String → ℕ → ℕ → TripRecord engine
trip id vehicle payload ended = record {
  source = none;
  trip_id = id;
  vehicle_id = vehicle;
  callsign = "A";
  pickup_node = "P";
  dump_node = "D";
  payload_tonnes = plus payload;
  start_time_ms = plus 0;
  end_time_ms = plus ended;
  cycle_duration_s = plus 600000;
  loading_wait_s = plus 0;
  loaded_travel_s = plus 0;
  dumping_wait_s = plus 0;
  empty_return_s = plus 0;
  idle_s = plus 60000;
  distance_km = plus 2000;
  avg_speed_kmh = plus 12000;
  route_deviations_count = plus 0;
  route_compliance_pct = plus 100000;
  fuel_litres_est = plus 10000;
}

-- One trip of another vehicle, one that is there twice, and one without payload.
abbrev trips : List (TripRecord engine)
trips =
    trip "T3" "DUMPER_01" 40000 3000
    ∷ trip "T1" "DUMPER_01" 30000 1000
    ∷ trip "T2" "DUMPER_02" 30000 2000
    ∷ trip "T3" "DUMPER_01" 40000 3000
    ∷ trip "T4" "DUMPER_01" 0 4000
    ∷ []

selecting : Unit {0}
unfolding is_positive is_date is_comparable to_efficiency_trip trip_after first_trips numbered
    slice_last select_efficiency_trips summarize_trips total best_trip sort insert filter any
selecting = tt

selected_ids :
    map (λ t. t.id) (select_efficiency_trips engine trips "DUMPER_01" 15) ≡ "T1" ∷ "T3" ∷ []
unfolding selecting
selected_ids = refl

summary_payload :
    (summarize_trips engine (select_efficiency_trips engine trips "DUMPER_01" 15)).total_payload
    ≡ plus 70000
unfolding selecting
summary_payload = refl

select_efficiency_trips_sound_example :
    let chosen = select_efficiency_trips engine trips "DUMPER_01" 15 in
    (length chosen ≤ 15)
    × IsNumbered engine 1 chosen
    × ((id : String) → count_if (λ t. t.id === id) chosen ≤ 1)
    × All
        (λ t.
          (r : TripRecord engine) × Memᴰ r trips
          × ((r.vehicle_id === "DUMPER_01") ≡ true)
          × (to_efficiency_trip engine r t.number ≡ some t))
        chosen
select_efficiency_trips_sound_example =
    select_efficiency_trips_sound engine trips "DUMPER_01" 15 (omega arith)
