-- ===== src/State/World.antt =====
-- frontend/src/types.ts: the world state that the dashboard works on once a message has passed the
-- test, as records. `WorldState` has the properties that a modelled function reads.
use sih.Prelude.{String, Bool, List, Option}
use sih.Prelude.Runtime.{Runtime}

pub data DataMode : Type 0 where
  live simulated replay : DataMode

pub data VisibilityState : Type 0 where
  good moderate low very_low : VisibilityState

pub data SensorStatus : Type 0 where
  healthy degraded stale offline : SensorStatus

pub data CorridorState : Type 0 where
  green yellow red grey : CorridorState

pub data LinkStatus : Type 0 where
  excellent_link good_link degraded_link lost_link : LinkStatus

-- `"INFO" | "WARNING" | "CRITICAL"`, of an alert
pub data AlertSeverity : Type 0 where
  info_alert warning_alert critical_alert : AlertSeverity

module _ (js : Runtime) where
  open js use {Num}

  -- `HaulVehicleState`
  pub record HaulVehicleState : Type 0 where
    pub phase : String
    pub payload_fraction : Num
    pub bed_angle_deg : Num
    pub phase_progress : Num
    pub cycle : Num
    pub road_elevation_m : Num
    pub road_pitch_deg : Num

  pub record VehiclePose : Type 0 where
    -- optional or null
    pub haul : Option HaulVehicleState
    pub timestamp_ms : Num
    pub vehicle_id : String
    pub x_m : Num
    pub y_m : Num
    pub heading_deg : Num
    pub speed_mps : Num
    pub position_confidence : Num
    pub mode : DataMode

  pub record RangeReading : Type 0 where
    pub timestamp_ms : Num
    pub sensor_id : String
    pub angle_deg : Num
    pub range_m : Num
    pub quality : Num
    pub max_range_m : Num
    pub is_valid : Bool
    pub mode : DataMode

  pub record EnvironmentState : Type 0 where
    pub timestamp_ms : Num
    pub temperature_c : Num
    pub pressure_hpa : Num
    pub relative_altitude_m : Num
    pub visibility_score : Num
    pub visibility_state : VisibilityState
    pub mode : DataMode

  -- The state is one of the texts of `EmergencyLevel`; peers send any text in its place.
  pub record EmergencyState : Type 0 where
    pub state : String
    pub reason : Option String
    pub nearest_obstacle_m : Option Num
    pub critical_distance_m : Option Num
    pub confidence : Num
    pub motor_cut : Bool
    pub latched_at_ms : Option Num

  pub record SpatialPoint : Type 0 where
    pub x_m : Num
    pub y_m : Num
    pub height_hint_m : Num
    pub source_sensor_id : String
    pub quality : Num
    pub timestamp_ms : Num

  pub record SensorHealth : Type 0 where
    pub sensor_id : String
    pub status : SensorStatus
    pub last_update_ms : Num
    pub confidence : Num
    pub detail : Option String

  pub record AlertEvent : Type 0 where
    pub event_id : String
    pub timestamp_ms : Num
    pub severity : AlertSeverity
    pub title : String
    pub detail : String
    pub vehicle_id : String

  pub record V2xPeerNode : Type 0 where
    pub vehicle_id : String
    pub last_seen_ms : Num
    pub x_m : Num
    pub y_m : Num
    pub distance_m : Num
    pub bearing_deg : Option Num
    pub speed_mps : Num
    pub heading_deg : Num
    pub emergency_state : String
    pub rssi_dbm : Num
    pub link_status : LinkStatus

  -- Of `V2XState`, what the supervisor's view reads.
  pub record V2xState : Type 0 where
    pub timestamp_ms : Num
    pub active_peers : List V2xPeerNode

  -- A sample of `vehicle_telemetry`; of its `gps` the speed, of its `load` nothing is read.
  pub record TelemetrySample : Type 0 where
    pub vehicle_id : String
    pub received_at_ms : Num
    pub online : Bool
    pub gps_speed_mps : Option Num

  pub record Point2d : Type 0 where
    pub x_m : Num
    pub y_m : Num

  -- Of `MapFeature`, what the modelled functions read; `properties` is not read.
  pub record MapFeature : Type 0 where
    pub feature_id : String
    pub feature_type : String
    pub geometry_type : String
    pub points : List Point2d
    pub label : String

  pub record RadarObject : Type 0 where
    pub timestamp_ms : Num
    pub detection_id : String
    pub range_m : Num
    pub bearing_deg : Num
    pub relative_velocity_mps : Num
    pub confidence : Num
    pub mode : DataMode

  -- An element of `live_objects`.
  pub record LiveObject : Type 0 where
    pub timestamp_ms : Num
    pub object_id : String
    pub x_m : Num
    pub y_m : Num
    pub object_type : String
    pub confidence : Num
    pub source : String
    pub mode : DataMode

  -- Of `HaulRouteState`, what the modelled functions read; an absent flag is false, and an absent
  -- path is empty.
  pub record HaulRouteState : Type 0 where
    pub planned_path : List Point2d
    pub obstacle : Option Point2d
    pub obstacle_radius_m : Num
    pub traffic_slowing : Bool
    pub lead_waiting : Bool
    pub obstacle_detected : Bool
    pub next_instruction : String

  pub record SafeCorridor : Type 0 where
    pub state : CorridorState
    pub confidence : Num
    pub reason : String

  pub record WorldState : Type 0 where
    -- `reference_map?.features ?? []`
    pub map_features : List MapFeature
    pub live_objects : List LiveObject
    pub radar_objects : List RadarObject
    pub spatial_points : List SpatialPoint
    pub vehicle_telemetry : Option (List TelemetrySample)
    pub generated_at_ms : Num
    pub mode : DataMode
    pub primary_vehicle_id : String
    pub vehicles : List VehiclePose
    -- `reference_map?.name`
    pub reference_map_name : Option String
    pub ranges : List RangeReading
    pub environment : EnvironmentState
    pub emergency : EmergencyState
    pub sensor_health : List SensorHealth
    pub safe_corridor : SafeCorridor
    pub v2x : Option V2xState
    pub haul_route : Option HaulRouteState
    pub alerts : List AlertEvent
