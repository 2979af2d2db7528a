-- ===== src/Tests/Fleet.antt =====
-- The supervisor's view of a small fleet (frontend/src/supervisor/supervisorViewModel.ts).
use sih.Prelude.{
  ◌↔◌, arith, ◌≤◌, ◌≡◌, inl, refl, true, false, none, some, [], ◌∷◌, map, All, Memᴰ, length, any,
  ◌===◌, filter, find, find_last,
}
use sih.Prelude.Sort.{sort, insert, IsSortedBy}
use sih.Tests.Engine.{plus, engine}
use sih.State.World.{
  WorldState, VehiclePose, V2xPeerNode, TelemetrySample, SensorHealth, RangeReading, live, low,
  healthy, lost_link, green,
}
use sih.State.RangeReadings.{
  available_range_readings, available_sensors, is_usable_range_reading, usable_range_readings,
}
use sih.State.RangeReadings.Laws.{IsAvailable, available_range_readings_iff}
use sih.State.Selectors.{tof_sensor_ids, tof_sensor_health, tof_sensor_health_summary, health_of}
use sih.State.Selectors.Laws.{tof_sensor_health_lem}
use sih.Supervisor.ViewModel.{
  SupervisorVehicle, critical, vehicle_tone, normalized_emergency_state, issue_for_vehicle,
  safety_issue, link_issue,
}
use sih.Supervisor.ViewModel.Vehicles.{
  has_id, list_or, peers, compare_vehicles, supervisor_vehicles, gathered_vehicles, pose_vehicle,
  pose_vehicles, peer_vehicle, sample_vehicle, peer_of, with_peers, with_samples, reference_time,
}
use sih.Supervisor.ViewModel.Issues.{
  supervisor_issues, raised_issues, vehicle_issues, sensor_issues, visibility_issues, haul_issues,
  compare_issues,
}
use sih.Supervisor.ViewModel.View.{create_supervisor_view_model, counts_of}
use sih.Supervisor.ViewModel.Kept.{every_vehicle_shown}
use sih.Supervisor.ViewModel.Order.{
  IsCollation, is_vehicle_behind, is_issue_behind, view-IsSortedBy,
}
use sih.Supervisor.ViewModel.Raised.{issue-raised}

abbrev pub pose : VehiclePose engine
pose = record {
  haul = none;
  timestamp_ms = plus 9000;
  vehicle_id = "DUMPER_01";
  x_m = plus 0;
  y_m = plus 0;
  heading_deg = plus 0;
  speed_mps = plus 3000;
  position_confidence = plus 900;
  mode = live;
}

abbrev lost_peer : V2xPeerNode engine
lost_peer = record {
  vehicle_id = "DUMPER_02";
  last_seen_ms = plus 1000;
  x_m = plus 5000;
  y_m = plus 0;
  distance_m = plus 5000;
  bearing_deg = none;
  speed_mps = plus 0;
  heading_deg = plus 0;
  emergency_state = "SAFE";
  rssi_dbm = plus 0;
  link_status = lost_link;
}

abbrev sample : TelemetrySample engine
sample = record {
  vehicle_id = "DUMPER_03";
  received_at_ms = plus 8000;
  online = true;
  gps_speed_mps = none;
}

abbrev front : SensorHealth engine
front = record {
  sensor_id = "front_fixed";
  status = healthy;
  last_update_ms = plus 9000;
  confidence = plus 1000;
  detail = none;
}

abbrev pub reading : RangeReading engine
reading = record {
  timestamp_ms = plus 9000;
  sensor_id = "front_fixed";
  angle_deg = plus 0;
  range_m = plus 2500;
  quality = plus 900;
  max_range_m = plus 4000;
  is_valid = true;
  mode = live;
}

abbrev pub world : WorldState engine
world = record {
  map_features = [];
  live_objects = [];
  radar_objects = [];
  spatial_points = [];
  vehicle_telemetry = some (sample ∷ []);
  generated_at_ms = plus 9000;
  mode = live;
  primary_vehicle_id = "DUMPER_01";
  vehicles = pose ∷ [];
  reference_map_name = none;
  ranges = reading ∷ [];
  environment = record {
    timestamp_ms = plus 9000;
    temperature_c = plus 30000;
    pressure_hpa = plus 0;
    relative_altitude_m = plus 0;
    visibility_score = plus 200;
    visibility_state = low;
    mode = live;
  };
  emergency = record {
    state = "CRITICAL";
    reason = none;
    nearest_obstacle_m = none;
    critical_distance_m = none;
    confidence = plus 1000;
    motor_cut = false;
    latched_at_ms = none;
  };
  sensor_health = front ∷ [];
  safe_corridor = record { state = green; confidence = plus 1000; reason = "" };
  v2x = some (record { timestamp_ms = plus 9000; active_peers = lost_peer ∷ [] });
  haul_route = none;
  alerts = [];
}

viewing : Unit {0}
unfolding create_supervisor_view_model supervisor_vehicles supervisor_issues counts_of find filter
    any find_last sort insert reference_time gathered_vehicles pose_vehicle pose_vehicles
    peer_vehicle sample_vehicle peer_of peers with_peers with_samples compare_vehicles vehicle_tone
    normalized_emergency_state issue_for_vehicle safety_issue link_issue raised_issues
    vehicle_issues sensor_issues visibility_issues haul_issues compare_issues tof_sensor_health
    tof_sensor_health_summary health_of available_range_readings available_sensors
    is_usable_range_reading usable_range_readings
viewing = tt

-- The critical vehicle first, then the lost one, then the one that is not known.
vehicles_listed :
    map (λ v. v.vehicle_id) (create_supervisor_view_model engine world).vehicles
    ≡ "DUMPER_01" ∷ "DUMPER_02" ∷ "DUMPER_03" ∷ []
unfolding viewing
vehicles_listed = refl

issues_listed :
    map (λ i. i.id) (create_supervisor_view_model engine world).issues
    ≡ "safety-DUMPER_01-CRITICAL" ∷ "link-lost-DUMPER_02" ∷ "primary-sensor-health"
      ∷ "primary-visibility" ∷ []
unfolding viewing
issues_listed = refl

every_vehicle_shown_example :
    let shown = (create_supervisor_view_model engine world).vehicles in
    All (λ v. has_id engine v.vehicle_id shown ≡ true) world.vehicles
    × All (λ p. has_id engine p.vehicle_id shown ≡ true) (peers engine world)
    × All (λ s. has_id engine s.vehicle_id shown ≡ true) (list_or world.vehicle_telemetry)
every_vehicle_shown_example = every_vehicle_shown engine world

abbrev critical_vehicle : SupervisorVehicle engine
critical_vehicle = pose_vehicle engine world none pose

critical_vehicle-shown : Memᴰ critical_vehicle (create_supervisor_view_model engine world).vehicles
unfolding viewing
critical_vehicle-shown = Memᴰ.head refl

critical_vehicle-tone : critical_vehicle.tone ≡ critical
unfolding viewing
critical_vehicle-tone = refl

issue-raised_example :
    any
      (λ i. i.vehicle_id === critical_vehicle.vehicle_id)
      (create_supervisor_view_model engine world).issues
    ≡ true
issue-raised_example =
    issue-raised engine (λ s. refl) world critical_vehicle-shown (inl critical_vehicle-tone)

available_range_readings_iff_example :
    Memᴰ reading (available_range_readings engine world.ranges world.sensor_health true)
    ↔ IsAvailable engine world.ranges world.sensor_health true reading
available_range_readings_iff_example =
    available_range_readings_iff engine world.ranges world.sensor_health true reading

tof_sensor_health_lem_example :
    let summary = tof_sensor_health_summary engine world.sensor_health in
    (map (λ s. s.sensor_id) (tof_sensor_health engine world.sensor_health) ≡ tof_sensor_ids)
    × (summary.total ≡ length (tof_sensor_health engine world.sensor_health))
    × (summary.healthy ≤ summary.total)
tof_sensor_health_lem_example = tof_sensor_health_lem engine world.sensor_health

engine-IsCollation : IsCollation engine
engine-IsCollation = record {
  asymmetric = λ x y h. ground arith;
  transitive = λ x y z h k. ground arith;
}

view-IsSortedBy_example :
    let view = create_supervisor_view_model engine world in
    IsSortedBy (is_vehicle_behind engine) view.vehicles
    × IsSortedBy (is_issue_behind engine) view.issues
view-IsSortedBy_example = view-IsSortedBy engine engine-IsCollation world
