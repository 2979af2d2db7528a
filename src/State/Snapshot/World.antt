-- ===== src/State/Snapshot/World.antt =====
-- worldStateSnapshot.ts, lines 487 to 535: the whole message.
use sih.Prelude.{String, Bool, List, [], ◌∷◌, ◌&&◌, ◌||◌}
use sih.Prelude.Runtime.{Runtime}
use sih.Prelude.Value.{Value, prop}
use sih.State.Snapshot.Basics.{
  has, is_record, is_boolean, is_null, is_undefined, is_text, is_array_of, has_strings, has_mode,
  is_nullable_finite_number, has_finite_numbers, is_point_2d,
}
use sih.State.Snapshot.Sensors.{
  is_vehicle, is_vehicle_telemetry, is_range, is_sensor_health, has_motion_shape,
  has_environment_shape, has_emergency_shape, is_radar_object, is_live_object, is_spatial_point,
  is_alert,
}
use sih.State.Snapshot.Scene.{
  has_camera_shape, has_corridor_shape, has_occupancy_shape, has_simulation_shape,
  has_recording_shape, has_reference_map_shape,
}
use sih.State.Snapshot.V2x.{has_v2x_shape}

abbrev pub haul_phases : List String
haul_phases = "HAULING" ∷ "OBSTACLE" ∷ "WAITING" ∷ "ARRIVED" ∷ []

module _ (js : Runtime) where
  open js use {Num, text_of}

  -- `value.haul_route == null || (…)`, lines 522 to 533. The phase is turned into a text before
  -- it is looked up.
  unfoldable pub has_haul_route_shape : Value Num → Bool
  unfolding has has_strings has_finite_numbers
  has_haul_route_shape value =
      is_undefined value
      || is_null value
      || is_record value
        && has_strings value ("origin" ∷ "destination" ∷ "next_instruction" ∷ [])
        && has haul_phases (text_of (prop value "phase"))
        && has_finite_numbers js value (
            "distance_m" ∷ "total_distance_m" ∷ "remaining_m" ∷ "elapsed_s" ∷ "obstacle_radius_m"
            ∷ [])
        && (is_undefined (prop value "planned_path")
            || is_array_of (is_point_2d js) (prop value "planned_path"))
        && (is_undefined (prop value "obstacle_distance_m")
            || is_nullable_finite_number js (prop value "obstacle_distance_m"))
        && (is_undefined (prop value "traffic_slowing")
            || is_boolean (prop value "traffic_slowing"))
        && (is_undefined (prop value "lead_waiting") || is_boolean (prop value "lead_waiting"))
        && (is_undefined (prop value "obstacle_detected")
            || is_boolean (prop value "obstacle_detected"))
        && (is_null (prop value "obstacle") || is_point_2d js (prop value "obstacle"))

  unfoldable pub is_world_state_snapshot : Value Num → Bool
  unfolding has_strings has_finite_numbers
  is_world_state_snapshot value =
      is_record value
      && is_text "1.0" (prop value "schema_version")
      && has_mode (prop value "mode")
      && has_strings value ("primary_vehicle_id" ∷ [])
      && has_finite_numbers js value ("generated_at_ms" ∷ "sequence" ∷ [])
      && is_array_of (is_vehicle js) (prop value "vehicles")
      && (is_undefined (prop value "vehicle_telemetry")
          || is_array_of (is_vehicle_telemetry js) (prop value "vehicle_telemetry"))
      && has_reference_map_shape js (prop value "reference_map")
      && is_array_of (is_range js) (prop value "ranges")
      && has_motion_shape js (prop value "motion")
      && has_camera_shape js (prop value "camera")
      && has_environment_shape js (prop value "environment")
      && is_array_of (is_live_object js) (prop value "live_objects")
      && is_array_of (is_radar_object js) (prop value "radar_objects")
      && has_emergency_shape js (prop value "emergency")
      && is_array_of (is_sensor_health js) (prop value "sensor_health")
      && has_corridor_shape js (prop value "safe_corridor")
      && is_array_of (is_spatial_point js) (prop value "spatial_points")
      && has_occupancy_shape js (prop value "occupancy")
      && is_array_of (is_alert js) (prop value "alerts")
      && has_recording_shape js (prop value "recording")
      && has_simulation_shape js (prop value "simulation")
      && has_v2x_shape js (prop value "v2x")
      && has_haul_route_shape (prop value "haul_route")
