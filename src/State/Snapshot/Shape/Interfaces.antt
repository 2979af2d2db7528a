-- ===== src/State/Snapshot/Shape/Interfaces.antt =====
-- frontend/src/types.ts: the interfaces of a world message, each property in the interface's order,
-- and marked where the test on messages departs from the interface. A number of a message is finite,
-- as JSON has no other.
use sih.Prelude.{String, List, [], ◌∷◌}
use sih.State.Snapshot.Basics.{
  data_modes, corridor_states, emergency_states, sensor_states, visibility_states,
  map_feature_types, geometry_types, simulation_scenarios,
}
use sih.State.Snapshot.Shape.{
  Shape, Properties, unread, unnamed, named, untested, any_number, finite, text, flag, nothing,
  absent, one_of, either, both, list_of, non_empty_list_of, dictionary_of, interface, gps_report,
  phase_text, done, with, nullable, optional,
}
use sih.State.Snapshot.Shape.Operations.{mine_operations_state}
unfoldable pub use sih.State.Snapshot.Shape.Operations.{point_2d}

-- `MapFeature`, lines 191 to 198; the interface's list of points may be empty, and the test asks for
-- one point at least
unfoldable pub map_feature : Shape
map_feature = interface (
    with "feature_id" text (
      with "feature_type" (one_of map_feature_types) (
        with "geometry_type" (one_of geometry_types) (
          with "points" (non_empty_list_of point_2d) (
            with "label" text
              (with "properties" (dictionary_of (either (either text any_number) flag)) done))))))

-- `HaulVehicleState`, lines 213 to 221
unfoldable pub haul_vehicle_state : Properties
haul_vehicle_state = with "phase" text (
    with "payload_fraction" finite (
      with "bed_angle_deg" finite (
        with "phase_progress" finite (
          with "cycle" finite
            (with "road_elevation_m" finite (with "road_pitch_deg" finite done))))))

-- `VehiclePose`, lines 223 to 233
unfoldable pub vehicle_pose : Shape
vehicle_pose = interface (
    unread "haul" (optional (nullable (interface haul_vehicle_state))) (
      with "timestamp_ms" finite (
        with "vehicle_id" text (
          with "x_m" finite (
            with "y_m" finite (
              with "heading_deg" finite (
                with "speed_mps" finite
                  (with "position_confidence" finite (with "mode" (one_of data_modes) done)))))))))

-- the `gps` of a telemetry sample, lines 502 to 512
unfoldable pub gps_telemetry : Shape
gps_telemetry = interface (
    with "fix" flag (
      with "lat" (nullable finite) (
        with "lon" (nullable finite) (
          with "alt_m" (nullable finite) (
            with "speed_mps" (nullable finite) (
              with "sats" finite (
                with "hdop" (nullable finite)
                  (with "age" (nullable finite) (with "bytes" finite done)))))))))

-- the `load` of a telemetry sample, lines 513 to 522; the test asks for an `age` besides
unfoldable pub load_telemetry : Shape
load_telemetry = interface (
    with "ready" flag (
      with "tared" flag (
        with "taring" flag (
          with "calibrated" flag (
            with "zero_offset" finite (
              with "raw" (nullable finite) (
                with "net_raw" (nullable finite)
                  (with "kg" (nullable finite) (unnamed "age" (nullable finite) done)))))))))

-- a telemetry sample, lines 498 to 523; the test also asks for a `gps` in its ranges
unfoldable pub vehicle_telemetry : Shape
vehicle_telemetry = interface (
    with "vehicle_id" (either (one_of ("DUMPER_01" ∷ [])) (one_of ("DUMPER_02" ∷ []))) (
      with "received_at_ms" finite (
        with "online" flag (
          with "gps" (both gps_telemetry gps_report)
            (with "load" (nullable load_telemetry) done)))))

-- `RangeReading`, lines 235 to 244
unfoldable pub range_reading : Shape
range_reading = interface (
    with "timestamp_ms" finite (
      with "sensor_id" text (
        with "angle_deg" finite (
          with "range_m" finite (
            with "quality" finite (
              with "max_range_m" finite
                (with "is_valid" flag (with "mode" (one_of data_modes) done))))))))

-- `SpatialPoint`, lines 246 to 253
unfoldable pub spatial_point : Shape
spatial_point = interface (
    with "x_m" finite (
      with "y_m" finite (
        with "height_hint_m" finite (
          with "source_sensor_id" text (with "quality" finite (with "timestamp_ms" finite done))))))

-- `MotionState`, lines 255 to 267
unfoldable pub motion_state : Shape
motion_state = interface (
    with "timestamp_ms" finite (
      with "left_hall_ticks" finite (
        with "right_hall_ticks" finite (
          with "left_distance_m" finite (
            with "right_distance_m" finite (
              with "imu_heading_deg" finite (
                with "imu_yaw_rate_dps" finite (
                  with "aruco_visible" flag (
                    with "localization_confidence" finite (
                      with "provider_confidence" (dictionary_of finite)
                        (with "mode" (one_of data_modes) done)))))))))))

-- `VisibilityMetrics`, lines 269 to 275
unfoldable pub visibility_metrics : Shape
visibility_metrics = interface (
    with "contrast" finite (
      with "edge_density" finite
        (with "brightness" finite (with "entropy" finite (with "haze_proxy" finite done)))))

-- the statuses of the enhanced and of the infrared picture, lines 291 and 301
abbrev picture_states : List String
picture_states = "disabled" ∷ "loading" ∷ "live" ∷ "stale" ∷ "error" ∷ []

-- the status of the stream, line 286
abbrev stream_states : List String
stream_states = "disabled" ∷ "connecting" ∷ "live" ∷ "stale" ∷ "error" ∷ "simulated" ∷ []

-- `CameraState`, lines 277 to 310
unfoldable pub camera_state : Shape
camera_state = interface (
    with "timestamp_ms" finite (
      with "raw_frame_id" (nullable text) (
        with "enhanced_frame_id" (nullable text) (
          with "raw_available" flag (
            with "enhancement_available" flag (
              with "metrics" visibility_metrics (
                with "visibility_score" (nullable finite) (
                  with "visibility_state" (nullable (one_of visibility_states)) (
                    with "stream_status" (named stream_states) (
                      with "stream_detail" (nullable text) (
                        with "width_px" (nullable finite) (
                          with "height_px" (nullable finite) (
                            with "measured_fps" finite (
                              with "enhancement_status" (named picture_states) (
                                with "enhancement_detail" (nullable text) (
                                  with "enhancement_model" (nullable text) (
                                    with "enhancement_device" (nullable text) (
                                      with "enhancement_precision" (nullable text) (
                                        with "enhancement_latency_ms" (nullable finite) (
                                          with "enhancement_fps" finite (
                                            with "enhancement_peak_vram_mb" finite (
                                              with "ir_available" flag (
                                                with "ir_frame_id" (nullable text) (
                                                  with "ir_status" (named picture_states) (
                                                    with "ir_detail" (nullable text) (
                                                      with "ir_model" (nullable text) (
                                                        with "ir_device" (nullable text) (
                                                          with "ir_precision" (nullable text) (
                                                            with "ir_latency_ms" (nullable finite) (
                                                            with "ir_fps" finite (
                                                            with "ir_peak_vram_mb" finite (
                                                            with "mode" (one_of data_modes)
                                                            done))))))))))))))))))))))))))))))))

-- `EnvironmentState`, lines 312 to 320
unfoldable pub environment_state : Shape
environment_state = interface (
    with "timestamp_ms" finite (
      with "temperature_c" finite (
        with "pressure_hpa" finite (
          with "relative_altitude_m" finite (
            with "visibility_score" finite (
              with "visibility_state" (one_of visibility_states)
                (with "mode" (one_of data_modes) done)))))))

-- `EmergencyState`, lines 322 to 330
unfoldable pub emergency_state : Shape
emergency_state = interface (
    with "state" (one_of emergency_states) (
      with "reason" (nullable text) (
        with "nearest_obstacle_m" (nullable finite) (
          with "critical_distance_m" (nullable finite) (
            with "confidence" finite
              (with "motor_cut" flag (with "latched_at_ms" (nullable finite) done)))))))

-- `SensorHealth`, lines 332 to 338
unfoldable pub sensor_health : Shape
sensor_health = interface (
    with "sensor_id" text (
      with "status" (one_of sensor_states) (
        with "last_update_ms" finite
          (with "confidence" finite (with "detail" (nullable text) done)))))

-- `RadarObject`, lines 340 to 348
unfoldable pub radar_object : Shape
radar_object = interface (
    with "timestamp_ms" finite (
      with "detection_id" text (
        with "range_m" finite (
          with "bearing_deg" finite (
            with "relative_velocity_mps" finite
              (with "confidence" finite (with "mode" (one_of data_modes) done)))))))

-- `AlertEvent`, lines 350 to 357
unfoldable pub alert_event : Shape
alert_event = interface (
    with "event_id" text (
      with "timestamp_ms" finite (
        with "severity" (named ("INFO" ∷ "WARNING" ∷ "CRITICAL" ∷ []))
          (with "title" text (with "detail" text (with "vehicle_id" text done))))))

-- a live object, lines 535 to 544
unfoldable pub live_object : Shape
live_object = interface (
    with "timestamp_ms" finite (
      with "object_id" text (
        with "x_m" finite (
          with "y_m" finite (
            with "object_type" text (
              with "confidence" finite
                (with "source" text (with "mode" (one_of data_modes) done))))))))

-- `RecordingState`, lines 359 to 364
unfoldable pub recording_state : Shape
recording_state = interface (
    with "recording" flag (
      with "recording_filename" (nullable text)
        (with "replaying" flag (with "replay_filename" (nullable text) done))))

-- `SimulationState`, lines 366 to 374
unfoldable pub simulation_state : Shape
simulation_state = interface (
    with "running" flag (
      with "scenario" (one_of simulation_scenarios) (
        with "speed_scale" finite (
          with "obstacle_enabled" flag (
            with "visibility_score" finite (
              with "front_scanner_angle_deg" finite
                (with "rear_scanner_angle_deg" finite done)))))))

-- `ReferenceMap`, lines 200 to 211
unfoldable pub reference_map : Shape
reference_map = interface (
    with "map_id" text (
      with "name" text (
        with "version" finite (
          with "created_at_ms" finite (
            with "coordinate_frame" (named ("LOCAL_CARTESIAN_METRES" ∷ [])) (
              unread "coordinate_frame_id" (optional text) (
                with "source" text (
                  unread "source_detail" (optional (nullable text)) (
                    unread "geographic_anchor" (optional (nullable (dictionary_of finite)))
                      (with "features" (list_of map_feature) done))))))))))

-- the corridor, lines 548 to 554
unfoldable pub safe_corridor : Shape
safe_corridor = interface (
    with "state" (one_of corridor_states) (
      with "polygon" (list_of point_2d) (
        with "exclusions" (list_of map_feature)
          (with "confidence" finite (with "reason" text done)))))

-- a cell of the grid, lines 561 to 566
unfoldable pub occupied_cell : Shape
occupied_cell = interface (
    with "column" finite
      (with "row" finite (with "hit_count" finite (with "height_hint_m" finite done))))

-- the grid, lines 556 to 568
unfoldable pub occupancy : Shape
occupancy = interface (
    with "resolution_m" finite (
      with "origin" point_2d (
        with "width" finite (
          with "height" finite
            (with "occupied_cells" (list_of occupied_cell) (with "updated_at_ms" finite done))))))

-- `V2XPeerNode`, lines 440 to 452
unfoldable pub v2x_peer : Shape
v2x_peer = interface (
    with "vehicle_id" text (
      with "last_seen_ms" finite (
        with "x_m" finite (
          with "y_m" finite (
            with "distance_m" finite (
              with "bearing_deg" (optional finite) (
                with "speed_mps" finite (
                  with "heading_deg" finite (
                    with "emergency_state" text (
                      with "rssi_dbm" finite (
                        with "link_status" (named ("EXCELLENT" ∷ "GOOD" ∷ "DEGRADED" ∷ "LOST" ∷ []))
                          done)))))))))))

-- `V2XInfrastructureNode`, lines 454 to 462
unfoldable pub v2x_infrastructure_node : Shape
v2x_infrastructure_node = interface (
    with "rsu_id" text (
      with "name" text (
        with "x_m" finite (
          with "y_m" finite (
            with "status" (named ("ACTIVE" ∷ "STANDBY" ∷ "OFFLINE" ∷ []))
              (with "coverage_radius_m" finite (with "active_advisories_count" finite done)))))))

-- `V2IAdvisoryType`, lines 392 to 398
abbrev advisory_types : List String
advisory_types =
    "FOG_WARNING" ∷ "SPEED_RESTRICTION" ∷ "HAZARD_ZONE" ∷ "PASSAGE_PRIORITY" ∷ "DISPATCH"
    ∷ "ROAD_MAINTENANCE" ∷ []

-- `V2XMessageType`, lines 385 to 390
abbrev v2x_message_types : List String
v2x_message_types =
    "V2V_BSM" ∷ "V2V_PROXIMITY_ALERT" ∷ "V2I_ADVISORY" ∷ "V2I_INTERSECTION_PRIORITY"
    ∷ "V2I_EMERGENCY_BROADCAST" ∷ []

-- `V2IAdvisoryMessage`, lines 414 to 427
unfoldable pub v2i_advisory_fields : Properties
v2i_advisory_fields =
    (with "message_id" text (
      with "timestamp_ms" finite (
        with "rsu_id" text (
          with "rsu_name" text (
            with "advisory_type" (named advisory_types) (
              with "title" text (
                with "detail" text (
                  with "speed_limit_kmh" (nullable finite) (
                    with "expires_at_ms" (nullable finite) (
                      with "zone_x_m" (nullable finite) (
                        with "zone_y_m" (nullable finite)
                          (with "zone_radius_m" (nullable finite) done))))))))))))

unfoldable pub v2i_advisory : Shape
unfolding v2i_advisory_fields
v2i_advisory = interface v2i_advisory_fields

-- `V2VBasicSafetyMessage`, lines 400 to 412
unfoldable pub v2v_basic_safety_message : Properties
v2v_basic_safety_message = with "message_id" text (
    with "timestamp_ms" finite (
      with "vehicle_id" text (
        with "x_m" finite (
          with "y_m" finite (
            with "heading_deg" finite (
              with "speed_mps" finite (
                with "emergency_state" text (
                  with "corridor_state" text (
                    with "nearest_obstacle_m" (nullable finite)
                      (with "brake_applied" flag done))))))))))

-- `key?: T | null` for an object type whose properties the test does not look at
unfoldable pub payload : Properties → Shape
payload ps = either (either absent nothing) (untested ps)

-- `V2XMessage`, lines 429 to 438
unfoldable pub v2x_message : Shape
v2x_message = interface (
    with "message_id" text (
      with "timestamp_ms" finite (
        with "msg_type" (named v2x_message_types) (
          with "source_id" text (
            with "target_id" text (
              with "summary" text (
                with "bsm_payload" (payload v2v_basic_safety_message)
                  (with "advisory_payload" (payload v2i_advisory_fields) done))))))))

-- `V2XState`, lines 464 to 476
unfoldable pub v2x_state : Shape
v2x_state = interface (
    with "timestamp_ms" finite (
      with "enabled" flag (
        with "node_id" text (
          with "protocol_version" text (
            with "tx_packet_count" finite (
              with "rx_packet_count" finite (
                with "channel_frequency_mhz" finite (
                  with "active_peers" (list_of v2x_peer) (
                    with "infrastructure_nodes" (list_of v2x_infrastructure_node) (
                      with "active_advisories" (list_of v2i_advisory)
                        (with "recent_messages" (list_of v2x_message) done)))))))))))

-- `HaulRouteState`, lines 478 to 495
unfoldable pub haul_route : Shape
haul_route = interface (
    unread "cycle" (optional finite) (
      with "traffic_slowing" (optional flag) (
        with "lead_waiting" (optional flag) (
          with "obstacle_detected" (optional flag) (
            with "obstacle_distance_m" (optional (nullable finite)) (
              with "planned_path" (optional (list_of point_2d)) (
                with "origin" text (
                  with "destination" text (
                    with "phase" phase_text (
                      with "distance_m" finite (
                        with "total_distance_m" finite (
                          with "remaining_m" finite (
                            with "elapsed_s" finite (
                              with "obstacle" (nullable point_2d) (
                                with "obstacle_radius_m" finite
                                  (with "next_instruction" text done))))))))))))))))

-- `WorldState`, lines 497 to 575
unfoldable pub world_state : Shape
world_state = interface (
    with "vehicle_telemetry" (optional (list_of vehicle_telemetry)) (
      with "schema_version" (one_of ("1.0" ∷ [])) (
        with "generated_at_ms" finite (
          with "sequence" finite (
            with "mode" (one_of data_modes) (
              with "primary_vehicle_id" text (
                with "vehicles" (list_of vehicle_pose) (
                  with "reference_map" (nullable reference_map) (
                    with "ranges" (list_of range_reading) (
                      with "motion" motion_state (
                        with "camera" camera_state (
                          with "environment" environment_state (
                            with "live_objects" (list_of live_object) (
                              with "radar_objects" (list_of radar_object) (
                                with "emergency" emergency_state (
                                  with "sensor_health" (list_of sensor_health) (
                                    with "safe_corridor" safe_corridor (
                                      with "spatial_points" (list_of spatial_point) (
                                        with "occupancy" occupancy (
                                          with "alerts" (list_of alert_event) (
                                            with "recording" recording_state (
                                              with "simulation" simulation_state (
                                                with "v2x" (optional v2x_state) (
                                                  with "haul_route"
                                                    (either (either absent nothing) haul_route)
                                                    (unread "operations"
                                                      (optional mine_operations_state)
                                                      done)))))))))))))))))))))))))
