-- ===== src/Spatial/Projection/Readings.antt =====
-- spatialProjection.ts, lines 208 to 327: sensors, their readings and their sectors.
use sih.Prelude.{
  ℕ, zero, suc, String, Bool, false, not, ◌&&◌, ◌||◌, List, [], ◌∷◌, Option, none, some,
  if◌then◌else◌, ◌⊕◌,
}
use sih.Prelude.Runtime.{Runtime}
use sih.State.World.{RangeReading}
use sih.Settings.Sensors.{SensorDisplaySetting}
use sih.Spatial.Projection.{
  VehiclePoint3d, ScreenPoint, CameraViewConfig, int, finite_number, finite_or_zero,
  finite_vehicle_point, radians, project_vehicle_point_with_camera,
}

pub data ThreatLevel : Type 0 where
  alert caution clear unknown : ThreatLevel

module _ (js : Runtime) where
  open js use {
    Num, decimal, is_finite, lt, le, neg, add, sub, mul, div, rem, max_num, min_num, abs, sin, cos,
    hypot, pi, to_fixed, number_of,
  }

  abbrev is_valid_reading : Option (RangeReading js) → Bool
  is_valid_reading none = false
  is_valid_reading (some reading) = reading.is_valid

  -- `reading?.…`
  abbrev of_reading : (RangeReading js → Num) → Option (RangeReading js) → Option Num
  of_reading part none = none
  of_reading part (some reading) = some (part reading)

  unfoldable pub range_endpoint :
      SensorDisplaySetting js → Option (RangeReading js) → VehiclePoint3d js
  unfolding finite_number
  range_endpoint setting reading =
      let visual_range = max_num (int js 0) (finite_or_zero js setting.visual_range_m) in
      let measured_range = finite_number js (of_reading (λ r. r.range_m) reading) (decimal 55 2) in
      let range =
        if is_valid_reading reading
        then max_num (int js 0) (min_num measured_range visual_range)
        else min_num (decimal 55 2) visual_range in
      let yaw = add (finite_or_zero js setting.display_pose.yaw_deg) (
        if setting.scanner
        then finite_number js (of_reading (λ r. r.angle_deg) reading) (int js 0)
        else int js 0) in
      let yaw_rad = radians js yaw in
      let pitch_rad = radians js (finite_or_zero js setting.display_pose.pitch_deg) in
      let planar_range = mul range (cos pitch_rad) in
      record {
        x_m = add (finite_or_zero js setting.display_pose.x_m) (mul (sin yaw_rad) planar_range);
        y_m = add (finite_or_zero js setting.display_pose.y_m) (mul (cos yaw_rad) planar_range);
        z_m =
            max_num (int js 0)
              (add (finite_or_zero js setting.display_pose.z_m) (mul (sin pitch_rad) range));
      }

  unfoldable pub ground_range_endpoint :
      SensorDisplaySetting js → Option (RangeReading js) → VehiclePoint3d js
  unfolding range_endpoint
  ground_range_endpoint setting reading =
      let flat = record setting.display_pose { pitch_deg = int js 0; z_m = int js 0 } in
      let endpoint = range_endpoint (record setting { display_pose = flat }) reading in
      record endpoint { z_m = int js 0 }

  unfoldable pub has_measured_hit : Option (RangeReading js) → Bool
  has_measured_hit none = false
  has_measured_hit (some reading) =
      reading.is_valid
      && is_finite reading.range_m
      && lt (int js 0) reading.range_m
      && le (decimal 5 1) reading.quality
      && lt reading.range_m (sub reading.max_range_m (decimal 1 2))

  unfoldable pub point_distance_from_sensor : VehiclePoint3d js → SensorDisplaySetting js → Num
  unfolding finite_vehicle_point finite_number
  point_distance_from_sensor point setting =
      let safe_point = finite_vehicle_point js point in
      hypot (sub safe_point.x_m (finite_or_zero js setting.display_pose.x_m))
        (sub safe_point.y_m (finite_or_zero js setting.display_pose.y_m))

  unfoldable pub obstacle_visual_radius : Num → Num → Num
  unfolding finite_number
  obstacle_visual_radius distance_m scale =
      let clamped_dist = max_num (decimal 18 2) (finite_number js (some distance_m) (int js 4)) in
      let proximity_factor = div (decimal 36 1) (add clamped_dist (decimal 42 2)) in
      let radius = min_num (int js 26) (
        max_num (decimal 32 1) (
          mul (mul (decimal 44 1) proximity_factor)
            (max_num (int js 0) (finite_number js (some scale) (int js 1))))) in
      number_of (to_fixed radius 2)

  abbrev pub alert_distance : SensorDisplaySetting js → Num
  alert_distance setting = max_num (int js 0) (finite_or_zero js setting.alert_distance_m)

  unfoldable pub get_sensor_threat_level :
      Option (RangeReading js) → SensorDisplaySetting js → ThreatLevel
  unfolding finite_number
  get_sensor_threat_level none setting = unknown
  get_sensor_threat_level (some reading) setting =
      if not reading.is_valid || not (is_finite reading.range_m)
      then unknown
      else if le reading.range_m (alert_distance setting)
      then alert
      else if le reading.range_m (mul (alert_distance setting) (decimal 15 1))
      then caution
      else clear

  -- The points for `i` from `i` on, as many as the first argument says.
  unfoldable pub sector_points :
      ℕ → ℕ → VehiclePoint3d js → Num → Num → Num → CameraViewConfig js → List (ScreenPoint js)
  unfolding project_vehicle_point_with_camera
  sector_points zero i origin start_angle step range_m camera = []
  sector_points (suc n) i origin start_angle step range_m camera =
      let angle = radians js (add start_angle (mul (int js i) step)) in
      let world_x = add origin.x_m (mul (sin angle) range_m) in
      let world_y = add origin.y_m (mul (cos angle) range_m) in
      project_vehicle_point_with_camera js (record { x_m = world_x; y_m = world_y; z_m = int js 0 })
        camera
      ∷ sector_points n (suc i) origin start_angle step range_m camera

  abbrev coordinates : ScreenPoint js → String
  coordinates p = to_fixed p.x 1 ⊕ " " ⊕ to_fixed p.y 1

  unfoldable pub path_from : String → List (ScreenPoint js) → String
  path_from acc [] = acc
  path_from acc (p ∷ points) = path_from (acc ⊕ " L " ⊕ coordinates p) points

  unfoldable pub generate_fov_sector_path :
      VehiclePoint3d js → Num → Num → Num → ℕ → CameraViewConfig js → String
  unfolding project_vehicle_point_with_camera sector_points path_from
  generate_fov_sector_path origin yaw_deg fov_deg range_m segments camera =
      let half_fov = div fov_deg (int js 2) in
      let start_angle = sub yaw_deg half_fov in
      let step = div fov_deg (int js segments) in
      let origin_screen =
        project_vehicle_point_with_camera js
          (record { x_m = origin.x_m; y_m = origin.y_m; z_m = int js 0 }) camera in
      path_from ("M " ⊕ coordinates origin_screen)
        (sector_points (suc segments) 0 origin start_angle step range_m camera)
      ⊕ " Z"
