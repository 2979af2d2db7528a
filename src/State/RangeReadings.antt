-- ===== src/State/RangeReadings.antt =====
-- frontend/src/state/rangeReadings.ts: which range readings may be shown.
pub mod Laws
use sih.Prelude.{
  Bool, true, false, ◌&&◌, ◌||◌, not, String, List, [], ◌∷◌, map, filter, any, if◌then◌else◌, ◌===◌,
}
use sih.Prelude.Runtime.{Runtime}
use sih.State.World.{SensorStatus, healthy, degraded, stale, offline, RangeReading, SensorHealth}

abbrev pub is_healthy : SensorStatus → Bool
is_healthy healthy = true
is_healthy _ = false

-- `status === "HEALTHY" || status === "DEGRADED"`
abbrev pub is_reporting : SensorStatus → Bool
is_reporting healthy = true
is_reporting degraded = true
is_reporting _ = false

module _ (js : Runtime) where
  open js use {decimal, is_finite, lt, le}

  unfoldable pub is_usable_range_reading : RangeReading js → Bool
  is_usable_range_reading reading =
      reading.is_valid
      && is_finite reading.range_m
      && lt (decimal 0 0) reading.range_m
      && le (decimal 5 1) reading.quality

  unfoldable pub usable_range_readings : List (RangeReading js) → List (RangeReading js)
  unfolding filter is_usable_range_reading
  usable_range_readings readings = filter is_usable_range_reading readings

  -- The set `availableSensors`.
  unfoldable pub available_sensors : List (SensorHealth js) → List String
  unfolding filter
  available_sensors sensor_health =
      map (λ s. s.sensor_id) (filter (λ s. is_reporting s.status) sensor_health)

  unfoldable pub available_range_readings :
      List (RangeReading js) → List (SensorHealth js) → Bool → List (RangeReading js)
  unfolding filter any usable_range_readings available_sensors
  available_range_readings readings sensor_health telemetry_connected =
      if not telemetry_connected
      then []
      else let available = available_sensors sensor_health in
        filter (λ r. any (λ id. id === r.sensor_id) available) (usable_range_readings readings)
