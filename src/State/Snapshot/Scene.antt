-- ===== src/State/Snapshot/Scene.antt =====
-- worldStateSnapshot.ts, lines 185 to 349: camera, corridor, occupancy grid, map and controls.
use sih.Prelude.{Bool, [], ◌∷◌, ◌&&◌, ◌||◌}
use sih.Prelude.Runtime.{Runtime}
use sih.Prelude.Value.{Value, prop}
use sih.State.Snapshot.Basics.{
  is_record, is_string, is_boolean, is_null, is_one_of, is_array_of, has_strings,
  has_nullable_strings, has_mode, is_finite_number, has_finite_numbers, has_nullable_finite_numbers,
  is_point_2d, is_map_feature, visibility_states, corridor_states, simulation_scenarios,
}

module _ (js : Runtime) where
  open js use {Num}

  unfoldable pub has_camera_shape : Value Num → Bool
  unfolding has_strings has_finite_numbers has_nullable_strings has_nullable_finite_numbers
  has_camera_shape value =
      is_record value
      && is_record (prop value "metrics")
      && has_finite_numbers js (prop value "metrics")
          ("contrast" ∷ "edge_density" ∷ "brightness" ∷ "entropy" ∷ "haze_proxy" ∷ [])
      && has_mode (prop value "mode")
      && is_boolean (prop value "raw_available")
      && is_boolean (prop value "enhancement_available")
      && is_boolean (prop value "ir_available")
      && has_strings value ("stream_status" ∷ "enhancement_status" ∷ "ir_status" ∷ [])
      && has_nullable_strings value (
          "raw_frame_id" ∷ "enhanced_frame_id" ∷ "stream_detail" ∷ "enhancement_detail"
          ∷ "enhancement_model" ∷ "enhancement_device" ∷ "enhancement_precision" ∷ "ir_frame_id"
          ∷ "ir_detail" ∷ "ir_model" ∷ "ir_device" ∷ "ir_precision" ∷ [])
      && has_nullable_finite_numbers js value (
          "visibility_score" ∷ "width_px" ∷ "height_px" ∷ "enhancement_latency_ms" ∷ "ir_latency_ms"
          ∷ [])
      && (is_null (prop value "visibility_state")
          || is_one_of visibility_states (prop value "visibility_state"))
      && has_finite_numbers js value (
          "timestamp_ms" ∷ "measured_fps" ∷ "enhancement_fps" ∷ "enhancement_peak_vram_mb"
          ∷ "ir_fps" ∷ "ir_peak_vram_mb" ∷ [])

  unfoldable pub has_corridor_shape : Value Num → Bool
  has_corridor_shape value =
      is_record value
      && is_one_of corridor_states (prop value "state")
      && is_array_of (is_point_2d js) (prop value "polygon")
      && is_array_of (is_map_feature js) (prop value "exclusions")
      && is_finite_number js (prop value "confidence")
      && is_string (prop value "reason")

  unfoldable pub is_occupied_cell : Value Num → Bool
  unfolding has_finite_numbers
  is_occupied_cell cell =
      is_record cell
      && has_finite_numbers js cell ("column" ∷ "row" ∷ "hit_count" ∷ "height_hint_m" ∷ [])

  unfoldable pub has_occupancy_shape : Value Num → Bool
  unfolding has_finite_numbers
  has_occupancy_shape value =
      is_record value
      && is_point_2d js (prop value "origin")
      && is_array_of is_occupied_cell (prop value "occupied_cells")
      && has_finite_numbers js value ("resolution_m" ∷ "width" ∷ "height" ∷ "updated_at_ms" ∷ [])

  unfoldable pub has_simulation_shape : Value Num → Bool
  unfolding has_finite_numbers
  has_simulation_shape value =
      is_record value
      && is_boolean (prop value "running")
      && is_one_of simulation_scenarios (prop value "scenario")
      && is_boolean (prop value "obstacle_enabled")
      && has_finite_numbers js value (
          "speed_scale" ∷ "visibility_score" ∷ "front_scanner_angle_deg" ∷ "rear_scanner_angle_deg"
          ∷ [])

  unfoldable pub has_recording_shape : Value Num → Bool
  unfolding has_nullable_strings
  has_recording_shape value =
      is_record value
      && is_boolean (prop value "recording")
      && is_boolean (prop value "replaying")
      && has_nullable_strings value ("recording_filename" ∷ "replay_filename" ∷ [])

  unfoldable pub has_reference_map_shape : Value Num → Bool
  unfolding has_strings has_finite_numbers
  has_reference_map_shape value =
      is_null value
      || is_record value
        && has_strings value ("map_id" ∷ "name" ∷ "coordinate_frame" ∷ "source" ∷ [])
        && has_finite_numbers js value ("version" ∷ "created_at_ms" ∷ [])
        && is_array_of (is_map_feature js) (prop value "features")
