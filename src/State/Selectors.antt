-- ===== src/State/Selectors.antt =====
-- frontend/src/state/selectors.ts: what the views read off a world state.
pub mod Laws
use sih.Prelude.{
  ℕ, Bool, true, false, String, List, [], ◌∷◌, map, filter, any, find, length, Option, none, some,
  if◌then◌else◌, ltb, ◌===◌, get_or, find_last,
}
use sih.Prelude.Runtime.{Runtime}
use sih.State.World.{VehiclePose, RangeReading, SensorHealth, WorldState, offline, simulated}
use sih.State.RangeReadings.{is_healthy, usable_range_readings}

abbrev pub expected_tof_sensor_count : ℕ
expected_tof_sensor_count = 5

abbrev pub tof_sensor_ids : List String
tof_sensor_ids = "front_scanner" ∷ "front_fixed" ∷ "rear_scanner" ∷ "left_side" ∷ "right_side" ∷ []

-- What `tofSensorHealthSummary` returns.
pub record SensorSummary : Type 0 where
  pub healthy : ℕ
  pub total : ℕ

module _ (js : Runtime) where
  open js use {Num, decimal, is_finite, min_num, to_fixed}

  unfoldable pub primary_vehicle_or_null : WorldState js → Option (VehiclePose js)
  unfolding find
  primary_vehicle_or_null world =
      find (λ v. v.vehicle_id === world.primary_vehicle_id) world.vehicles

  -- `defaultWorldState.vehicles[0]` (state/defaultState.ts)
  abbrev pub default_vehicle : VehiclePose js
  default_vehicle = record {
    haul = none;
    timestamp_ms = decimal 0 0;
    vehicle_id = "DUMPER_01";
    x_m = decimal 0 0;
    y_m = decimal 0 0;
    heading_deg = decimal 0 0;
    speed_mps = decimal 0 0;
    position_confidence = decimal 0 0;
    mode = simulated;
  }

  unfoldable pub primary_vehicle : WorldState js → VehiclePose js
  unfolding primary_vehicle_or_null
  primary_vehicle world = get_or (primary_vehicle_or_null world) default_vehicle

  -- `Math.min(first, ...rest)`
  abbrev pub min_of : Num → List Num → Num
  min_of first [] = first
  min_of first (n ∷ rest) = min_of (min_num first n) rest

  unfoldable pub nearest_of : List (RangeReading js) → Option Num
  nearest_of [] = none
  nearest_of (r ∷ rs) = some (min_of r.range_m (map (λ s. s.range_m) rs))

  unfoldable pub nearest_range : List (RangeReading js) → Option Num
  unfolding usable_range_readings nearest_of
  nearest_range readings = nearest_of (usable_range_readings js readings)

  unfoldable pub healthy_sensor_count : WorldState js → ℕ
  unfolding filter
  healthy_sensor_count world = length (filter (λ s. is_healthy s.status) world.sensor_health)

  -- An entry of the result: the last report of the sensor, or the default of lines 44 to 50.
  unfoldable pub health_of : List (SensorHealth js) → String → SensorHealth js
  unfolding find_last
  health_of known sensor_id' = get_or (find_last (λ s. s.sensor_id === sensor_id') known) (record {
    sensor_id = sensor_id';
    status = offline;
    last_update_ms = decimal 0 0;
    confidence = decimal 0 0;
    detail = some "No status received";
  })

  unfoldable pub tof_sensor_health : List (SensorHealth js) → List (SensorHealth js)
  unfolding filter any health_of
  tof_sensor_health sensors =
      map (health_of (filter (λ s. any (λ id. id === s.sensor_id) tof_sensor_ids) sensors))
        tof_sensor_ids

  unfoldable pub tof_sensor_health_summary : List (SensorHealth js) → SensorSummary
  unfolding filter tof_sensor_health
  tof_sensor_health_summary sensors = record {
    healthy = length (filter (λ s. is_healthy s.status) (tof_sensor_health sensors));
    total = expected_tof_sensor_count;
  }

  unfoldable pub format_number : Num → ℕ → String
  format_number value digits = if is_finite value then to_fixed value digits else "--"
