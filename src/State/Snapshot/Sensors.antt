-- ===== src/State/Snapshot/Sensors.antt =====
-- worldStateSnapshot.ts, lines 103 to 286 and 352 to 396: vehicles, telemetry and sensors.
use sih.Prelude.{ℕ, Bool, false, not, [], ◌∷◌, ◌&&◌, ◌||◌}
use sih.Prelude.Runtime.{Runtime}
use sih.Prelude.Value.{Value, number, boolean, prop}
use sih.State.Snapshot.Basics.{
  is_record, is_boolean, is_null, is_text, is_one_of, has_values, has_strings, is_nullable_string,
  has_mode, is_finite_number, has_finite_numbers, has_nullable_finite_numbers, sensor_states,
  visibility_states, emergency_states,
}

-- A test on the number that a value holds; the sources make it only after `isFiniteNumber`.
abbrev pub number_is : {N : Type 0} → (N → Bool) → Value N → Bool
number_is p (number n) = p n
number_is p _ = false

-- `!value`, of a value that was tested to be a boolean
abbrev pub is_false : {N : Type 0} → Value N → Bool
is_false (boolean b) = not b
is_false _ = false

module _ (js : Runtime) where
  open js use {Num, lt, neg, decimal}

  unfoldable pub is_vehicle : Value Num → Bool
  unfolding has_strings has_finite_numbers
  is_vehicle value =
      is_record value
      && has_strings value ("vehicle_id" ∷ [])
      && has_finite_numbers js value (
          "timestamp_ms" ∷ "x_m" ∷ "y_m" ∷ "heading_deg" ∷ "speed_mps" ∷ "position_confidence" ∷ [])
      && has_mode (prop value "mode")

  -- Outside the interval from `-limit` to `limit`.
  abbrev pub is_beyond : ℕ → Num → Bool
  is_beyond limit n = lt n (neg (decimal limit 0)) || lt (decimal limit 0) n

  -- The guards return false one after another; the last line is the function's own return.
  unfoldable pub is_gps_telemetry : Value Num → Bool
  unfolding has_finite_numbers has_nullable_finite_numbers
  is_gps_telemetry value =
      is_record value
      && is_boolean (prop value "fix")
      && has_finite_numbers js value ("sats" ∷ "bytes" ∷ [])
      && has_nullable_finite_numbers js value
          ("lat" ∷ "lon" ∷ "alt_m" ∷ "speed_mps" ∷ "hdop" ∷ "age" ∷ [])
      && not (
          number_is (λ n. lt n (decimal 0 0)) (prop value "sats")
          || number_is (λ n. lt n (decimal 0 0)) (prop value "bytes"))
      && not (not (is_null (prop value "lat")) && number_is (is_beyond 90) (prop value "lat"))
      && not (not (is_null (prop value "lon")) && number_is (is_beyond 180) (prop value "lon"))
      && (is_false (prop value "fix")
          || not (is_null (prop value "lat"))
            && not (is_null (prop value "lon"))
            && not (is_null (prop value "age")))

  unfoldable pub is_load_telemetry : Value Num → Bool
  unfolding has_nullable_finite_numbers
  is_load_telemetry value =
      is_null value
      || is_record value
        && is_boolean (prop value "ready")
        && is_boolean (prop value "tared")
        && is_boolean (prop value "taring")
        && is_boolean (prop value "calibrated")
        && is_finite_number js (prop value "zero_offset")
        && has_nullable_finite_numbers js value ("raw" ∷ "net_raw" ∷ "kg" ∷ "age" ∷ [])

  unfoldable pub is_vehicle_telemetry : Value Num → Bool
  is_vehicle_telemetry value =
      is_record value
      && (is_text "DUMPER_01" (prop value "vehicle_id")
          || is_text "DUMPER_02" (prop value "vehicle_id"))
      && is_finite_number js (prop value "received_at_ms")
      && is_boolean (prop value "online")
      && is_gps_telemetry (prop value "gps")
      && is_load_telemetry (prop value "load")

  unfoldable pub is_range : Value Num → Bool
  unfolding has_strings has_finite_numbers
  is_range value =
      is_record value
      && has_strings value ("sensor_id" ∷ [])
      && has_finite_numbers js value
          ("timestamp_ms" ∷ "angle_deg" ∷ "range_m" ∷ "quality" ∷ "max_range_m" ∷ [])
      && is_boolean (prop value "is_valid")
      && has_mode (prop value "mode")

  unfoldable pub is_sensor_health : Value Num → Bool
  unfolding has_strings has_finite_numbers
  is_sensor_health value =
      is_record value
      && has_strings value ("sensor_id" ∷ [])
      && is_one_of sensor_states (prop value "status")
      && has_finite_numbers js value ("last_update_ms" ∷ "confidence" ∷ [])
      && is_nullable_string (prop value "detail")

  unfoldable pub has_motion_shape : Value Num → Bool
  unfolding has_strings has_finite_numbers
  has_motion_shape value =
      is_record value
      && is_record (prop value "provider_confidence")
      && has_values (is_finite_number js) (prop value "provider_confidence")
      && has_mode (prop value "mode")
      && is_boolean (prop value "aruco_visible")
      && has_finite_numbers js value (
          "timestamp_ms" ∷ "left_hall_ticks" ∷ "right_hall_ticks" ∷ "left_distance_m"
          ∷ "right_distance_m" ∷ "imu_heading_deg" ∷ "imu_yaw_rate_dps" ∷ "localization_confidence"
          ∷ [])

  unfoldable pub has_environment_shape : Value Num → Bool
  unfolding has_strings has_finite_numbers
  has_environment_shape value =
      is_record value
      && has_mode (prop value "mode")
      && is_one_of visibility_states (prop value "visibility_state")
      && has_finite_numbers js value (
          "timestamp_ms" ∷ "temperature_c" ∷ "pressure_hpa" ∷ "relative_altitude_m"
          ∷ "visibility_score" ∷ [])

  unfoldable pub has_emergency_shape : Value Num → Bool
  unfolding has_finite_numbers has_nullable_finite_numbers
  has_emergency_shape value =
      is_record value
      && is_one_of emergency_states (prop value "state")
      && is_boolean (prop value "motor_cut")
      && is_nullable_string (prop value "reason")
      && has_nullable_finite_numbers js value
          ("nearest_obstacle_m" ∷ "critical_distance_m" ∷ "latched_at_ms" ∷ [])
      && has_finite_numbers js value ("confidence" ∷ [])

  unfoldable pub is_radar_object : Value Num → Bool
  unfolding has_strings has_finite_numbers
  is_radar_object value =
      is_record value
      && has_strings value ("detection_id" ∷ [])
      && has_finite_numbers js value
          ("timestamp_ms" ∷ "range_m" ∷ "bearing_deg" ∷ "relative_velocity_mps" ∷ "confidence" ∷ [])
      && has_mode (prop value "mode")

  unfoldable pub is_live_object : Value Num → Bool
  unfolding has_strings has_finite_numbers
  is_live_object value =
      is_record value
      && has_strings value ("object_id" ∷ "object_type" ∷ "source" ∷ [])
      && has_finite_numbers js value ("timestamp_ms" ∷ "x_m" ∷ "y_m" ∷ "confidence" ∷ [])
      && has_mode (prop value "mode")

  unfoldable pub is_spatial_point : Value Num → Bool
  unfolding has_strings has_finite_numbers
  is_spatial_point value =
      is_record value
      && has_strings value ("source_sensor_id" ∷ [])
      && has_finite_numbers js value
          ("x_m" ∷ "y_m" ∷ "height_hint_m" ∷ "quality" ∷ "timestamp_ms" ∷ [])

  unfoldable pub is_alert : Value Num → Bool
  unfolding has_strings
  is_alert value =
      is_record value
      && has_strings value ("event_id" ∷ "severity" ∷ "title" ∷ "detail" ∷ "vehicle_id" ∷ [])
      && is_finite_number js (prop value "timestamp_ms")
