-- ===== src/Tests/Driver.antt =====
-- The driver's dashboard on concrete worlds (frontend/src/driver).
use sih.Prelude.{
  ◌≡◌, ◌≤◌, ◌===◌, String, arith, refl, true, false, [], ◌∷◌, none, some, filter, any, find,
  find_last, Memᴰ,
}
use sih.Prelude.Counting.{count_if}
use sih.Driver.Proximity.Trusted.{trusted_readings-available}
use sih.Prelude.Sort.{sort, insert}
use sih.Tests.Engine.{plus, engine}
use sih.Tests.Fleet.{world, reading}
use sih.State.World.{WorldState, RangeReading, grey}
use sih.State.Connection.{connected, disconnected}
use sih.State.Selectors.{primary_vehicle_or_null}
use sih.State.RangeReadings.{
  available_range_readings, available_sensors, is_usable_range_reading, usable_range_readings,
}
use sih.Settings.Sensors.{SensorDisplaySetting}
use sih.Spatial.Projection.{finite_number}
use sih.Spatial.Projection.Readings.{alert, get_sensor_threat_level}
use sih.Driver.Proximity.{
  ProximityAlert, latest_reading, raised_alerts, active_proximity_alerts, proximity_view,
  trusted_readings, is_trusted, distinct_count,
}
use sih.Driver.Dashboard.{is_available, driver_view, banner, emergency_banner, proximity_banner}
use sih.Driver.Dashboard.Laws.{
  IsTelemetryBanner, driver_view_unavailable, driver_view_stop, driver_view_alert,
}

abbrev front : SensorDisplaySetting engine
front = record {
  sensor_id = "front_fixed";
  label = "Front fixed";
  scanner = false;
  display_pose = record {
    x_m = plus 0;
    y_m = plus 550;
    z_m = plus 320;
    yaw_deg = plus 0;
    pitch_deg = plus 0;
  };
  alert_distance_m = plus 700;
  visual_range_m = plus 2000;
}

abbrev near : RangeReading engine
near = record reading { timestamp_ms = plus 9500; range_m = plus 500 }

abbrev near_world : WorldState engine
near_world = record world {
  emergency = record world.emergency { state = "SAFE" };
  ranges = reading ∷ near ∷ [];
}

abbrev stop_world : WorldState engine
stop_world = record world { emergency = record world.emergency { state = "EMERGENCY_STOP" } }

driving : Unit {0}
unfolding primary_vehicle_or_null find filter any available_range_readings available_sensors
    is_usable_range_reading usable_range_readings latest_reading raised_alerts
    active_proximity_alerts sort insert get_sensor_threat_level finite_number proximity_view
    trusted_readings is_trusted distinct_count find_last
driving = tt

lost_unavailable : is_available engine world disconnected ≡ false
lost_unavailable = refl

world_available : is_available engine world connected ≡ true
unfolding driving
world_available = refl

-- Two readings of one sensor are one trusted sensor.
near_count :
    (proximity_view engine [] near_world.ranges world.sensor_health (front ∷ []) true).reading_count
    ≡ 1
unfolding driving
near_count = refl

driver_view_unavailable_example :
    let v = driver_view engine world disconnected (front ∷ []) none in
    (v.ranges ≡ [])
    × (v.points ≡ some [])
    × (v.proximity_alert ≡ none)
    × (v.forward_hazard ≡ none)
    × (v.control_state ≡ "UNVERIFIED")
    × (v.corridor_state ≡ grey)
    × (v.corridor_confidence ≡ plus 0)
    × IsTelemetryBanner engine (banner engine disconnected v)
driver_view_unavailable_example =
    driver_view_unavailable engine world disconnected (front ∷ []) none lost_unavailable

stop_available : is_available engine stop_world connected ≡ true
unfolding driving
stop_available = refl

driver_view_stop_example :
    let v = driver_view engine stop_world connected (front ∷ []) none in
    (v.emergency_state ≡ "EMERGENCY_STOP")
    × (v.control_state ≡ "STOP REQUEST")
    × (banner engine connected v
        ≡ emergency_banner "EMERGENCY STOP" "Reduce speed and check the safe corridor.")
driver_view_stop_example =
    driver_view_stop engine stop_world connected (front ∷ []) none stop_available refl

near_available : is_available engine near_world connected ≡ true
unfolding driving
near_available = refl

near_latest :
    latest_reading engine
      (available_range_readings engine near_world.ranges near_world.sensor_health true)
      "front_fixed"
    ≡ some near
unfolding driving
near_latest = refl

near_alert : get_sensor_threat_level engine (some near) front ≡ alert
unfolding driving
near_alert = refl

driver_view_alert_example :
    (shown : ProximityAlert engine) × (banner engine connected
        (driver_view engine near_world connected (front ∷ []) none)
      ≡ proximity_banner shown)
    × (get_sensor_threat_level engine (some shown.reading) shown.sensor ≡ alert)
driver_view_alert_example =
    driver_view_alert engine near_world connected (front ∷ []) none near_available refl refl front
      (Memᴰ.head refl) near near_latest near_alert

one_report : (id : String) → count_if (λ h. h.sensor_id === id) near_world.sensor_health ≤ 1
unfolding count_if
one_report id = ground arith

trusted_readings-available_example :
    trusted_readings engine near_world.ranges near_world.sensor_health true
    ≡ available_range_readings engine near_world.ranges near_world.sensor_health true
trusted_readings-available_example =
    trusted_readings-available engine near_world.ranges near_world.sensor_health true one_report
