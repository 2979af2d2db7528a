-- ===== src/Driver/Proximity.antt =====
-- frontend/src/driver/ProximityWidget.tsx, its functions and what it computes before its markup, and
-- driverAwareness.ts.
pub mod Laws
pub mod Trusted
use sih.Prelude.{
  ℕ, suc, String, Bool, true, false, not, ◌&&◌, ◌||◌, List, [], ◌∷◌, map, Option, none, some,
  if◌then◌else◌, filter, any, find_last, ◌===◌,
}
use sih.Prelude.Runtime.{Runtime}
use sih.Prelude.Sort.{sort}
use sih.State.World.{RangeReading, SpatialPoint, VehiclePose, SensorHealth}
use sih.State.RangeReadings.{is_usable_range_reading, is_reporting}
use sih.Settings.Sensors.{SensorDisplaySetting}
use sih.Spatial.Projection.{radians}
use sih.Spatial.Projection.Readings.{ThreatLevel, alert, get_sensor_threat_level}

abbrev pub is_alert_level : ThreatLevel → Bool
is_alert_level alert = true
is_alert_level _ = false

abbrev pub head? {ℓ} : {A : Type ℓ} → List A → Option A
head? [] = none
head? (x ∷ xs) = some x

-- `new Set(ids).size`
unfoldable pub distinct_count : List String → ℕ
unfolding any
distinct_count [] = 0
distinct_count (id ∷ ids) =
    let rest = distinct_count ids in if any (λ other. other === id) ids then rest else suc rest

module _ (js : Runtime) where
  open js use {Num, decimal, lt, add, sub, mul, sin, cos, hypot}

  -- What `spatialPointToPlot` returns.
  pub record PlotPoint : Type 0 where
    pub x : Num
    pub y : Num
    pub distance_m : Num

  unfoldable pub spatial_point_to_plot : SpatialPoint js → VehiclePose js → PlotPoint
  spatial_point_to_plot point vehicle =
      let heading = radians js vehicle.heading_deg in
      let delta_x = sub point.x_m vehicle.x_m in
      let delta_y = sub point.y_m vehicle.y_m in
      let local_x = sub (mul delta_x (cos heading)) (mul delta_y (sin heading)) in
      let local_y = add (mul delta_x (sin heading)) (mul delta_y (cos heading)) in
      record {
        x = add (decimal 120 0) (mul local_x (decimal 22 0));
        y = sub (decimal 120 0) (mul local_y (decimal 22 0));
        distance_m = hypot local_x local_y;
      }

  abbrev pub is_earlier : RangeReading js → RangeReading js → Bool
  is_earlier left right = lt (decimal 0 0) (sub right.timestamp_ms left.timestamp_ms)

  unfoldable pub latest_reading : List (RangeReading js) → String → Option (RangeReading js)
  unfolding sort filter
  latest_reading readings id = head? (sort is_earlier (filter (λ r. r.sensor_id === id) readings))

  pub record ProximityAlert : Type 0 where
    pub sensor : SensorDisplaySetting js
    pub reading : RangeReading js

  abbrev pub is_farther : ProximityAlert → ProximityAlert → Bool
  is_farther left right = lt (decimal 0 0) (sub left.reading.range_m right.reading.range_m)

  -- The pairs that pass the filter.
  unfoldable pub raised_alerts :
      List (RangeReading js) → List (SensorDisplaySetting js) → List ProximityAlert
  unfolding latest_reading get_sensor_threat_level
  raised_alerts readings [] = []
  raised_alerts readings (s ∷ sensors) =
      let rest = raised_alerts readings sensors in
      elim (latest_reading readings s.sensor_id) [
        | none ↦ rest
        | some reading ↦
            if is_alert_level (get_sensor_threat_level js (some reading) s)
            then record { sensor = s; reading = reading } ∷ rest
            else rest
      ]

  unfoldable pub active_proximity_alerts :
      List (RangeReading js) → List (SensorDisplaySetting js) → List ProximityAlert
  unfolding sort raised_alerts
  active_proximity_alerts readings sensors = sort is_farther (raised_alerts readings sensors)

  -- Lines 337 to 343: the last report of a sensor decides.
  unfoldable pub is_trusted : List (SensorHealth js) → RangeReading js → Bool
  unfolding find_last is_usable_range_reading
  is_trusted sensor_health reading =
      elim (find_last (λ h. h.sensor_id === reading.sensor_id) sensor_health) [
        | none ↦ false
        | some health ↦ is_reporting health.status && is_usable_range_reading js reading
      ]

  unfoldable pub trusted_readings :
      List (RangeReading js) → List (SensorHealth js) → Bool → List (RangeReading js)
  unfolding filter is_trusted
  trusted_readings readings sensor_health telemetry_connected =
      if telemetry_connected then filter (is_trusted sensor_health) readings else []

  -- What the widget shows.
  pub record ProximityView : Type 0 where
    pub readings : List (RangeReading js)
    pub reading_count : ℕ
    pub points : List (SpatialPoint js)
    pub nearest_alert : Option ProximityAlert

  unfoldable pub proximity_view :
      List (SpatialPoint js)
      → List (RangeReading js)
      → List (SensorHealth js)
      → List (SensorDisplaySetting js)
      → Bool
      → ProximityView
  unfolding filter any trusted_readings active_proximity_alerts distinct_count
  proximity_view points readings sensor_health settings telemetry_connected =
      let trusted = trusted_readings readings sensor_health telemetry_connected in
      let ids = map (λ r. r.sensor_id) trusted in
      record {
        readings = trusted;
        reading_count = distinct_count ids;
        points =
            if telemetry_connected
            then filter (λ p. any (λ id. id === p.source_sensor_id) ids) points
            else [];
        nearest_alert = head? (active_proximity_alerts trusted settings);
      }
