-- ===== src/Spatial/Projection.antt =====
-- frontend/src/spatial/spatialProjection.ts: points around the vehicle, and where they are drawn.
-- An optional number that is absent is `none`; a default argument is written out at its calls.
pub mod Readings
pub mod Threat
use sih.Prelude.{
  ℕ, zero, suc, ◌+◌, String, Bool, true, false, not, ◌&&◌, ◌||◌, List, [], ◌∷◌, Option, none, some,
  if◌then◌else◌, ◌⊕◌,
}
use sih.Prelude.Runtime.{Runtime}
use sih.State.World.{SpatialPoint, RangeReading, VehiclePose}
use sih.Settings.Sensors.{SensorDisplaySetting}

pub data Projection : Type 0 where
  perspective plan : Projection

module _ (js : Runtime) where
  open js use {
    Num, decimal, is_finite, lt, le, neg, add, sub, mul, div, rem, max_num, min_num, abs, sin, cos,
    hypot, pi, to_fixed, number_of,
  }

  pub record VehiclePoint3d : Type 0 where
    pub x_m : Num
    pub y_m : Num
    pub z_m : Num

  pub record ScreenPoint : Type 0 where
    pub x : Num
    pub y : Num
    pub scale : Num

  pub record ImuOrientation : Type 0 where
    pub pitch_deg : Num
    pub roll_deg : Num
    pub yaw_deg : Num
    pub suspension_z_m : Option Num

  pub record CameraViewConfig : Type 0 where
    pub projection : Option Projection
    pub orbit_yaw_deg : Option Num
    pub camera_pitch_deg : Option Num
    pub zoom_scale : Option Num
    pub pan_offset_x : Option Num
    pub pan_offset_y : Option Num

  abbrev pub int : ℕ → Num
  int n = decimal n 0

  abbrev pub camera_orbit_min_deg : Num
  camera_orbit_min_deg = int 0

  abbrev pub camera_orbit_max_deg : Num
  camera_orbit_max_deg = int 359

  abbrev pub default_camera_pitch_deg : Num
  default_camera_pitch_deg = int 69

  abbrev pub camera_pitch_min_deg : Num
  camera_pitch_min_deg = neg (int 85)

  abbrev pub camera_pitch_max_deg : Num
  camera_pitch_max_deg = int 85

  unfoldable pub finite_number : Option Num → Num → Num
  finite_number none fallback = fallback
  finite_number (some value) fallback = if is_finite value then value else fallback

  abbrev pub finite_or_zero : Num → Num
  finite_or_zero value = finite_number (some value) (int 0)

  unfoldable pub finite_vehicle_point : VehiclePoint3d → VehiclePoint3d
  unfolding finite_number
  finite_vehicle_point point = record {
    x_m = finite_or_zero point.x_m;
    y_m = finite_or_zero point.y_m;
    z_m = finite_or_zero point.z_m;
  }

  unfoldable pub camera_orbit_after_drag : Num → Num → Num → Num
  unfolding finite_number
  camera_orbit_after_drag current_orbit_deg horizontal_delta_px degrees_per_pixel =
      let next_orbit_deg = add (finite_or_zero current_orbit_deg) (
        mul (finite_or_zero horizontal_delta_px)
          (finite_number (some degrees_per_pixel) (decimal 3 1))) in
      rem (add (rem next_orbit_deg (int 360)) (int 360)) (int 360)

  -- `Math.max(CAMERA_PITCH_MIN_DEG, Math.min(CAMERA_PITCH_MAX_DEG, pitch))`
  abbrev pub clamped_pitch : Num → Num
  clamped_pitch pitch = max_num camera_pitch_min_deg (min_num camera_pitch_max_deg pitch)

  unfoldable pub camera_pitch_after_drag : Num → Num → Num → Num
  unfolding finite_number
  camera_pitch_after_drag current_pitch_deg vertical_delta_px degrees_per_pixel = clamped_pitch (
      sub (finite_number (some current_pitch_deg) default_camera_pitch_deg) (
        mul (finite_or_zero vertical_delta_px)
          (finite_number (some degrees_per_pixel) (decimal 25 2))))

  -- `(degrees * Math.PI) / 180`
  abbrev pub radians : Num → Num
  radians degrees = div (mul degrees pi) (int 180)

  unfoldable pub world_point_to_vehicle : SpatialPoint js → VehiclePose js → VehiclePoint3d
  world_point_to_vehicle point vehicle =
      let heading = radians vehicle.heading_deg in
      let delta_x = sub point.x_m vehicle.x_m in
      let delta_y = sub point.y_m vehicle.y_m in
      record {
        x_m = sub (mul delta_x (cos heading)) (mul delta_y (sin heading));
        y_m = add (mul delta_x (sin heading)) (mul delta_y (cos heading));
        z_m = max_num (int 0) point.height_hint_m;
      }

  unfoldable pub apply_imu_transform :
      VehiclePoint3d → ImuOrientation → VehiclePoint3d → VehiclePoint3d
  unfolding finite_vehicle_point finite_number
  apply_imu_transform point imu origin =
      let safe_point = finite_vehicle_point point in
      let safe_origin = finite_vehicle_point origin in
      let p_rad = radians (finite_or_zero imu.pitch_deg) in
      let r_rad = radians (finite_or_zero imu.roll_deg) in
      let y_rad = radians (finite_or_zero imu.yaw_deg) in
      let dx = sub safe_point.x_m safe_origin.x_m in
      let dy = sub safe_point.y_m safe_origin.y_m in
      let dz = sub safe_point.z_m safe_origin.z_m in
      let x1 = add (mul dx (cos y_rad)) (mul dy (sin y_rad)) in
      let y1 = add (mul (neg dx) (sin y_rad)) (mul dy (cos y_rad)) in
      let y2 = sub (mul y1 (cos p_rad)) (mul dz (sin p_rad)) in
      let z2 = add (mul y1 (sin p_rad)) (mul dz (cos p_rad)) in
      let x3 = add (mul x1 (cos r_rad)) (mul z2 (sin r_rad)) in
      let z3 = add (mul (neg x1) (sin r_rad)) (mul z2 (cos r_rad)) in
      record {
        x_m = add safe_origin.x_m x3;
        y_m = add safe_origin.y_m y2;
        z_m =
            max_num (int 0)
              (add (add safe_origin.z_m z3) (finite_number imu.suspension_z_m (int 0)));
      }

  unfoldable pub camera_depth_for_vehicle_point : VehiclePoint3d → CameraViewConfig → Num
  unfolding finite_vehicle_point finite_number
  camera_depth_for_vehicle_point point camera =
      let safe_point = finite_vehicle_point point in
      let yaw_deg = finite_number camera.orbit_yaw_deg (int 0) in
      let pitch_deg =
        clamped_pitch (finite_number camera.camera_pitch_deg default_camera_pitch_deg) in
      let yaw_rad = radians yaw_deg in
      let pitch_rad = radians pitch_deg in
      let rotated_y = add (mul safe_point.x_m (sin yaw_rad)) (mul safe_point.y_m (cos yaw_rad)) in
      sub (mul rotated_y (cos pitch_rad)) (mul safe_point.z_m (sin pitch_rad))

  -- `Math.max(0.2, Math.min(4, finiteNumber(camera.zoomScale, 1)))`
  abbrev clamped_zoom : CameraViewConfig → Num
  clamped_zoom camera =
      max_num (decimal 2 1) (min_num (int 4) (finite_number camera.zoom_scale (int 1)))

  abbrev is_plan : Option Projection → Bool
  is_plan (some plan) = true
  is_plan _ = false

  -- Lines 157 to 163.
  unfoldable pub project_on_plan : VehiclePoint3d → CameraViewConfig → ScreenPoint
  unfolding finite_number
  project_on_plan safe_point camera =
      let zoom = clamped_zoom camera in
      record {
        x =
            add (add (int 500) (finite_number camera.pan_offset_x (int 0)))
              (mul (mul safe_point.x_m (int 96)) zoom);
        y =
            sub (add (int 400) (finite_number camera.pan_offset_y (int 0)))
              (mul (mul safe_point.y_m (int 96)) zoom);
        scale = zoom;
      }

  -- Lines 165 to 201.
  unfoldable pub project_in_perspective : VehiclePoint3d → CameraViewConfig → ScreenPoint
  unfolding finite_number camera_depth_for_vehicle_point
  project_in_perspective safe_point camera =
      let yaw_rad = radians (finite_number camera.orbit_yaw_deg (int 0)) in
      let pitch_deg =
        clamped_pitch (finite_number camera.camera_pitch_deg default_camera_pitch_deg) in
      let pitch_rad = radians pitch_deg in
      let steep_view_progress = max_num (int 0) (
        div (sub (abs pitch_deg) default_camera_pitch_deg)
          (sub camera_pitch_max_deg default_camera_pitch_deg)) in
      let zoom = mul (clamped_zoom camera) (sub (int 1) (mul steep_view_progress (decimal 38 2))) in
      let pan_x = finite_number camera.pan_offset_x (int 0) in
      let pan_y = finite_number camera.pan_offset_y (int 0) in
      let rotated_x = sub (mul safe_point.x_m (cos yaw_rad)) (mul safe_point.y_m (sin yaw_rad)) in
      let rotated_y = add (mul safe_point.x_m (sin yaw_rad)) (mul safe_point.y_m (cos yaw_rad)) in
      let camera_depth = camera_depth_for_vehicle_point safe_point camera in
      let forward = max_num (neg (int 4)) (min_num (int 6) camera_depth) in
      let scale =
        mul
          (div (int 1)
            (add (int 1) (mul (max_num (int 0) (add forward (decimal 5 1))) (decimal 55 3))))
          zoom in
      record {
        x = add (add (int 500) pan_x) (mul (mul rotated_x (int 96)) scale);
        y =
            sub
              (sub (add (int 400) pan_y) (mul (mul (mul rotated_y (int 96)) (sin pitch_rad)) zoom))
              (mul (mul (mul safe_point.z_m (int 88)) (cos pitch_rad)) scale);
        scale = scale;
      }

  unfoldable pub project_vehicle_point_with_camera : VehiclePoint3d → CameraViewConfig → ScreenPoint
  unfolding finite_vehicle_point project_on_plan project_in_perspective
  project_vehicle_point_with_camera point camera =
      let safe_point = finite_vehicle_point point in
      if is_plan camera.projection
      then project_on_plan safe_point camera
      else project_in_perspective safe_point camera

  -- `{}`
  abbrev pub no_camera : CameraViewConfig
  no_camera = record {
    projection = none;
    orbit_yaw_deg = none;
    camera_pitch_deg = none;
    zoom_scale = none;
    pan_offset_x = none;
    pan_offset_y = none;
  }

  unfoldable pub project_vehicle_point : VehiclePoint3d → ScreenPoint
  unfolding project_vehicle_point_with_camera
  project_vehicle_point point = project_vehicle_point_with_camera point no_camera
