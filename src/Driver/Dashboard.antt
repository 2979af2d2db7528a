-- ===== src/Driver/Dashboard.antt =====
-- frontend/src/driver/DriverDashboard.tsx: what the page computes from a world before its markup, and
-- which banner it shows.
pub mod Laws
use sih.Prelude.{
  String, Bool, true, false, not, ◌&&◌, ◌||◌, List, [], ◌∷◌, map, Option, none, some, if◌then◌else◌,
  any, every, is_some, get_or, ◌===◌,
}
use sih.Prelude.Runtime.{Runtime}
use sih.State.World.{
  DataMode, live, simulated, replay, VehiclePose, RangeReading, SpatialPoint, WorldState,
  CorridorState, green, yellow, red, grey,
}
use sih.State.Connection.{ConnectionState, connecting, connected, disconnected}
use sih.State.Selectors.{tof_sensor_ids, primary_vehicle_or_null, primary_vehicle, nearest_range}
use sih.State.RangeReadings.{available_range_readings}
use sih.State.SpatialPoints.{available_spatial_points}
use sih.Settings.Sensors.{SensorDisplaySetting}
use sih.Spatial.ForwardHazard.{ForwardHazard, Frame, forward, is_simulated}
use sih.Driver.Proximity.{ProximityAlert, active_proximity_alerts, head?}

abbrev pub is_connected : ConnectionState → Bool
is_connected connected = true
is_connected _ = false

abbrev pub is_live : DataMode → Bool
is_live live = true
is_live _ = false

abbrev pub corridor_name : CorridorState → String
corridor_name green = "GREEN"
corridor_name yellow = "YELLOW"
corridor_name red = "RED"
corridor_name grey = "UNVERIFIED"

module _ (js : Runtime) where
  open js use {Num, decimal, lt, mul, round, replace_all}

  pub record DriverView : Type 0 where
    pub vehicle : VehiclePose js
    pub telemetry_available : Bool
    pub connection : ConnectionState
    pub ranges : List (RangeReading js)
    pub nearest : Option Num
    -- `none` if the selection of points did not end
    pub points : Option (List (SpatialPoint js))
    pub proximity_alert : Option (ProximityAlert js)
    pub forward_hazard : Option (ForwardHazard js)
    pub emergency_state : String
    pub emergency_reason : Option String
    pub control_state : String
    pub corridor_state : CorridorState
    pub corridor_confidence : Num
    pub corridor_label : String

  pub data Banner : Type 0 where
    telemetry_banner : String → String → Banner
    emergency_banner : String → String → Banner
    proximity_banner : ProximityAlert js → Banner
    no_banner : Banner

  -- `vehicleTelemetryAvailable`
  abbrev pub is_available : WorldState js → ConnectionState → Bool
  is_available world connection =
      is_connected connection && is_some (primary_vehicle_or_null js world)

  -- `displayEmergencyState`
  unfoldable pub display_emergency_state : WorldState js → Option (ForwardHazard js) → String
  display_emergency_state world hazard =
      if is_simulated world.mode && not (world.emergency.state === "EMERGENCY_STOP")
      then elim hazard [
        | none ↦ "SAFE"
        | some h ↦ if lt h.distance_m (decimal 15 1) then "CRITICAL" else "WARNING"
      ]
      else world.emergency.state

  -- `displayEmergencyReason`
  unfoldable pub display_emergency_reason :
      WorldState js → Option (ForwardHazard js) → String → Option String
  display_emergency_reason world none state = world.emergency.reason
  display_emergency_reason world (some h) state =
      if is_simulated world.mode && not (state === "EMERGENCY_STOP")
      then some h.detail
      else world.emergency.reason

  -- `emergencyControlState`
  unfoldable pub emergency_control_state : Bool → WorldState js → String → String
  emergency_control_state available world state =
      if not available
      then "UNVERIFIED"
      else if world.emergency.motor_cut
      then "MOTOR CUT"
      else if state === "EMERGENCY_STOP"
      then "STOP REQUEST"
      else if state === "SAFE"
      then "NO STOP REQUEST"
      else state

  unfoldable pub has_complete_range_coverage : List (RangeReading js) → Bool
  unfolding every any
  has_complete_range_coverage ranges =
      every (λ id. any (λ r. r.sensor_id === id) ranges) tof_sensor_ids

  unfoldable pub driver_view :
      WorldState js
      → ConnectionState
      → List (SensorDisplaySetting js)
      → Option (ForwardHazard js)
      → DriverView
  unfolding primary_vehicle primary_vehicle_or_null available_range_readings nearest_range
      available_spatial_points active_proximity_alerts forward display_emergency_state
      display_emergency_reason emergency_control_state has_complete_range_coverage
  driver_view world connection settings previous =
      let available = is_available world connection in
      let vehicle = primary_vehicle js world in
      let ranges = available_range_readings js world.ranges world.sensor_health available in
      let frame : Frame js = record {
        telemetry_available = available;
        world = world;
        vehicle = vehicle;
      } in
      let hazard = forward js frame previous in
      let state = display_emergency_state world hazard in
      let corridor =
        if available && has_complete_range_coverage ranges
        then world.safe_corridor.state
        else grey in
      record {
        vehicle = vehicle;
        telemetry_available = available;
        connection = if is_connected connection && not available then disconnected else connection;
        ranges = ranges;
        nearest = nearest_range js ranges;
        points =
            available_spatial_points js world.spatial_points world.sensor_health available
              world.generated_at_ms vehicle (decimal 4 0) (some settings);
        proximity_alert =
            if is_live world.mode then head? (active_proximity_alerts js ranges settings) else none;
        forward_hazard = hazard;
        emergency_state = state;
        emergency_reason = display_emergency_reason world hazard state;
        control_state = emergency_control_state available world state;
        corridor_state = corridor;
        corridor_confidence =
            if available
            then round (mul world.safe_corridor.confidence (decimal 100 0))
            else decimal 0 0;
        corridor_label = corridor_name corridor;
      }

  -- The banner of lines 96 to 128.
  abbrev missing_title : ConnectionState → String
  missing_title connecting = "CONNECTING"
  missing_title connected = "VEHICLE DATA MISSING"
  missing_title disconnected = "TELEMETRY LOST"

  abbrev missing_text : ConnectionState → String
  missing_text connecting = "Waiting for live vehicle and sensor data."
  missing_text connected = "No primary vehicle was reported."
  missing_text disconnected = "Live vehicle and sensor data are unavailable."

  abbrev pub emergency_title : DriverView → String
  emergency_title view =
      if view.emergency_state === "EMERGENCY_STOP"
      then "EMERGENCY STOP"
      else elim view.forward_hazard [
        | some h ↦ h.title
        | none ↦ replace_all view.emergency_state "_" " "
      ]

  -- `connection` is the page's argument.
  unfoldable pub banner : ConnectionState → DriverView → Banner
  banner connection view =
      if not view.telemetry_available
      then telemetry_banner (missing_title connection) (missing_text connection)
      else if not (view.emergency_state === "SAFE")
      then emergency_banner (emergency_title view)
          (get_or view.emergency_reason "Reduce speed and check the safe corridor.")
      else elim view.proximity_alert [ some a ↦ proximity_banner a | none ↦ no_banner ]
