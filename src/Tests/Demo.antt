-- ===== src/Tests/Demo.antt =====
-- World messages and the recorded demo (frontend/src/state, frontend/src/simulation).
use sih.Prelude.{◌≡◌, ◌<◌, refl, true, false, some, [], ◌∷◌, All, length}
use sih.Prelude.Value.{
  Value, null, number, string, array, object, nil, cons, end, field, prop, assign,
}
use sih.Tests.Engine.{Milli, plus, engine}
use sih.Tests.Messages.{message, message_fields}
use sih.State.Snapshot.World.{is_world_state_snapshot}
use sih.State.Snapshot.Sensors.{
  is_vehicle, is_alert, is_range, has_motion_shape, has_environment_shape, has_emergency_shape,
}
use sih.State.Snapshot.Scene.{
  has_camera_shape, has_corridor_shape, has_occupancy_shape, has_simulation_shape,
  has_recording_shape, has_reference_map_shape,
}
use sih.State.Snapshot.V2x.{has_v2x_shape}
use sih.State.Snapshot.World.{has_haul_route_shape}
use sih.State.Snapshot.Basics.{
  is_point_2d, is_record, is_text, is_one_of, is_array_of, is_boolean, is_undefined, is_null,
  is_string, has_values, has_mode, is_finite_number,
}
use sih.State.Snapshot.Shape.Interfaces.{
  world_state, point_2d, map_feature, haul_vehicle_state, vehicle_pose, gps_telemetry,
  load_telemetry, vehicle_telemetry, range_reading, spatial_point, motion_state, visibility_metrics,
  camera_state, environment_state, emergency_state, sensor_health, radar_object, alert_event,
  live_object, recording_state, simulation_state, reference_map, safe_corridor, occupied_cell,
  occupancy, v2x_state, haul_route,
}
use sih.State.Snapshot.Shape.Conforms.{conforms}
use sih.Simulation.Manifest.{DemoManifest, is_chunk_url, read_demo_manifest}
use sih.Simulation.Manifest.Laws.{IsChunk, read_demo_manifest_sound}
use sih.Simulation.Frames.{decode_demo_frames}
use sih.Simulation.Frames.Laws.{IsShowable, decode_demo_frames_sound}

unfoldable pub message_tests : Unit {0}
unfolding is_world_state_snapshot is_vehicle is_range has_motion_shape has_environment_shape
    has_emergency_shape has_camera_shape has_corridor_shape has_occupancy_shape has_simulation_shape
    has_recording_shape has_reference_map_shape has_v2x_shape has_haul_route_shape is_point_2d
    is_record is_text is_one_of is_array_of is_boolean is_undefined is_null is_string has_values
    has_mode is_finite_number prop
message_tests = tt

message_passes : is_world_state_snapshot engine message ≡ true
unfolding message_tests
message_passes = refl

null_fails : is_world_state_snapshot engine null ≡ false
unfolding message_tests
null_fails = refl

interface_tests : Unit {0}
unfolding message_tests conforms world_state point_2d map_feature haul_vehicle_state vehicle_pose
    gps_telemetry load_telemetry vehicle_telemetry range_reading spatial_point motion_state
    visibility_metrics camera_state environment_state emergency_state sensor_health radar_object
    alert_event live_object recording_state simulation_state reference_map safe_corridor
    occupied_cell occupancy v2x_state haul_route
interface_tests = tt

-- A message with an alert of a severity that the interface does not have.
abbrev odd_message : Value Milli
odd_message = object (
    assign "alerts"
      (array (
        cons
          (object (
            field "event_id" (string "A1") (
              field "timestamp_ms" (number (plus 0)) (
                field "severity" (string "SOON") (
                  field "title" (string "")
                    (field "detail" (string "") (field "vehicle_id" (string "DUMPER_01") end)))))))
          nil))
      message_fields)

-- It passes the test, and does not conform to the interface.
odd_message_passes : is_world_state_snapshot engine odd_message ≡ true
unfolding message_tests is_alert
odd_message_passes = refl

odd_message_differs : conforms engine false world_state odd_message ≡ false
unfolding interface_tests
odd_message_differs = refl

good_url : is_chunk_url "/demo/part-01.json.gz" ≡ true
unfolding is_chunk_url
good_url = refl

bad_url : is_chunk_url "/demo/../secret.json.gz" ≡ false
unfolding is_chunk_url
bad_url = refl

abbrev pub map_value : Value Milli
map_value = object (
    field "map_id" (string "MINE_01") (
      field "name" (string "North pit") (
        field "coordinate_frame" (string "local") (
          field "source" (string "survey") (
            field "version" (number (plus 1000))
              (field "created_at_ms" (number (plus 0)) (field "features" (array nil) end)))))))

abbrev pub manifest_value : Value Milli
manifest_value = object (
    field "version" (number (plus 1000)) (
      field "frame_interval_ms" (number (plus 200000)) (
        field "reference_map" map_value (
          field "chunks"
            (array (
              cons
                (object (
                  field "url" (string "/demo/a.json.gz") (field "frames" (number (plus 1000)) end)))
                nil))
            end))))

abbrev manifest : DemoManifest engine
manifest = record {
  frame_interval_ms = plus 200000;
  reference_map = map_value;
  chunks = record { url = "/demo/a.json.gz"; frames = plus 1000 } ∷ [];
}

manifest_read : read_demo_manifest engine manifest_value ≡ some manifest
unfolding read_demo_manifest message_tests
manifest_read = refl

read_demo_manifest_sound_example :
    (0 < length manifest.chunks) × All (IsChunk engine) manifest.chunks
read_demo_manifest_sound_example = read_demo_manifest_sound engine manifest_value manifest_read

-- The first frame of a chunk, over a manifest with no map.
abbrev frame_fields : Value Milli
frame_fields = object (assign "reference_map" null message_fields)

frames_decode :
    decode_demo_frames engine (array (cons message nil)) null (plus 1000) ≡ some (frame_fields ∷ [])
unfolding decode_demo_frames message_tests
frames_decode = refl

decode_demo_frames_sound_example :
    (engine.eq (engine.decimal 1 0) (plus 1000) ≡ true)
    × All (IsShowable engine null) (frame_fields ∷ [])
decode_demo_frames_sound_example =
    decode_demo_frames_sound engine (array (cons message nil)) null (plus 1000) frames_decode
