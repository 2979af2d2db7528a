-- ===== src/Tests/Messages.antt =====
-- A world message: the default state of frontend/src/state/defaultState.ts, with one range reading
-- and without the optional parts.
use sih.Prelude.{true, false}
use sih.Prelude.Value.{
  Value, null, boolean, number, string, array, object, Fields, nil, cons, end, field,
}
use sih.Tests.Engine.{Milli, plus}

abbrev pub motion_value : Value Milli
motion_value = object (
    field "timestamp_ms" (number (plus 0)) (
      field "left_hall_ticks" (number (plus 0)) (
        field "right_hall_ticks" (number (plus 0)) (
          field "left_distance_m" (number (plus 0)) (
            field "right_distance_m" (number (plus 0)) (
              field "imu_heading_deg" (number (plus 0)) (
                field "imu_yaw_rate_dps" (number (plus 0)) (
                  field "aruco_visible" (boolean false) (
                    field "localization_confidence" (number (plus 0)) (
                      field "provider_confidence" (object (end))
                        (field "mode" (string "SIMULATED") (end))))))))))))

abbrev pub camera_value : Value Milli
camera_value = object (
    field "timestamp_ms" (number (plus 0)) (
      field "raw_frame_id" (null) (
        field "enhanced_frame_id" (null) (
          field "raw_available" (boolean false) (
            field "enhancement_available" (boolean false) (
              field "metrics"
                (object (
                  field "contrast" (number (plus 0)) (
                    field "edge_density" (number (plus 0)) (
                      field "brightness" (number (plus 0)) (
                        field "entropy" (number (plus 0))
                          (field "haze_proxy" (number (plus 1000)) (end)))))))
                (field "visibility_score" (null) (
                  field "visibility_state" (null) (
                    field "stream_status" (string "disabled") (
                      field "stream_detail" (null) (
                        field "width_px" (null) (
                          field "height_px" (null) (
                            field "measured_fps" (number (plus 0)) (
                              field "enhancement_status" (string "disabled") (
                                field "enhancement_detail" (null) (
                                  field "enhancement_model" (null) (
                                    field "enhancement_device" (null) (
                                      field "enhancement_precision" (null) (
                                        field "enhancement_latency_ms" (null) (
                                          field "enhancement_fps" (number (plus 0)) (
                                            field "enhancement_peak_vram_mb" (number (plus 0)) (
                                              field "ir_available" (boolean false) (
                                                field "ir_frame_id" (null) (
                                                  field "ir_status" (string "disabled") (
                                                    field "ir_detail" (null) (
                                                      field "ir_model" (null) (
                                                        field "ir_device" (null) (
                                                          field "ir_precision" (null) (
                                                            field "ir_latency_ms" (null) (
                                                            field "ir_fps" (number (plus 0)) (
                                                            field "ir_peak_vram_mb"
                                                            (number (plus 0))
                                                            (field "mode" (string "SIMULATED")
                                                            (end)))))))))))))))))))))))))))))))))

abbrev pub environment_value : Value Milli
environment_value = object (
    field "timestamp_ms" (number (plus 0)) (
      field "temperature_c" (number (plus 0)) (
        field "pressure_hpa" (number (plus 0)) (
          field "relative_altitude_m" (number (plus 0)) (
            field "visibility_score" (number (plus 0)) (
              field "visibility_state" (string "VERY_LOW")
                (field "mode" (string "SIMULATED") (end))))))))

abbrev pub emergency_value : Value Milli
emergency_value = object (
    field "state" (string "SAFE") (
      field "reason" (null) (
        field "nearest_obstacle_m" (null) (
          field "critical_distance_m" (null) (
            field "confidence" (number (plus 0))
              (field "motor_cut" (boolean false) (field "latched_at_ms" (null) (end))))))))

abbrev pub safe_corridor_value : Value Milli
safe_corridor_value = object (
    field "state" (string "GREY") (
      field "polygon" (array (nil)) (
        field "exclusions" (array (nil)) (
          field "confidence" (number (plus 0))
            (field "reason" (string "No telemetry received") (end))))))

abbrev pub occupancy_value : Value Milli
occupancy_value = object (
    field "resolution_m" (number (plus 250)) (
      field "origin" (object (field "x_m" (number (plus 0)) (field "y_m" (number (plus 0)) (end))))
        (field "width" (number (plus 80000)) (
          field "height" (number (plus 128000)) (
            field "occupied_cells" (array (nil))
              (field "updated_at_ms" (number (plus 0)) (end)))))))

abbrev pub recording_value : Value Milli
recording_value = object (
    field "recording" (boolean false) (
      field "recording_filename" (null)
        (field "replaying" (boolean false) (field "replay_filename" (null) (end)))))

abbrev pub simulation_value : Value Milli
simulation_value = object (
    field "running" (boolean true) (
      field "scenario" (string "NORMAL") (
        field "speed_scale" (number (plus 1500)) (
          field "obstacle_enabled" (boolean false) (
            field "visibility_score" (number (plus 880)) (
              field "front_scanner_angle_deg" (number (plus 0))
                (field "rear_scanner_angle_deg" (number (plus 0)) (end))))))))

abbrev pub message_fields : Fields Milli
message_fields = field "schema_version" (string "1.0") (
    field "generated_at_ms" (number (plus 0)) (
      field "sequence" (number (plus 0)) (
        field "mode" (string "SIMULATED") (
          field "primary_vehicle_id" (string "DUMPER_01") (
            field "vehicles"
              (array (
                cons
                  (object (
                    field "timestamp_ms" (number (plus 0)) (
                      field "vehicle_id" (string "DUMPER_01") (
                        field "x_m" (number (plus 0)) (
                          field "y_m" (number (plus 0)) (
                            field "heading_deg" (number (plus 0)) (
                              field "speed_mps" (number (plus 0)) (
                                field "position_confidence" (number (plus 0))
                                  (field "mode" (string "SIMULATED") (end))))))))))
                  (nil)))
              (field "reference_map" (null) (
                field "ranges"
                  (array (
                    cons
                      (object (
                        field "timestamp_ms" (number (plus 0)) (
                          field "sensor_id" (string "front_fixed") (
                            field "angle_deg" (number (plus 0)) (
                              field "range_m" (number (plus 2500)) (
                                field "quality" (number (plus 900)) (
                                  field "max_range_m" (number (plus 4000)) (
                                    field "is_valid" (boolean true)
                                      (field "mode" (string "SIMULATED") (end))))))))))
                      (nil)))
                  (field "motion" motion_value (
                    field "camera" camera_value (
                      field "environment" environment_value (
                        field "live_objects" (array (nil)) (
                          field "radar_objects" (array (nil)) (
                            field "emergency" emergency_value (
                              field "sensor_health" (array (nil)) (
                                field "safe_corridor" safe_corridor_value (
                                  field "spatial_points" (array (nil)) (
                                    field "occupancy" occupancy_value (
                                      field "alerts" (array (nil)) (
                                        field "recording" recording_value (
                                          field "simulation" simulation_value
                                            (end)))))))))))))))))))))

abbrev pub message : Value Milli
message = object message_fields
