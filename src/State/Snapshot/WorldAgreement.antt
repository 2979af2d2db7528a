-- ===== src/State/Snapshot/WorldAgreement.antt =====
-- worldStateSnapshot.ts: what a message that passes the test is, field by field.
use sih.Prelude.{◌≡◌, ◌||◌}
use sih.Prelude.Runtime.{Runtime}
use sih.Prelude.Value.{Value}
use sih.State.Snapshot.Basics.{is_null, is_undefined}
use sih.State.Snapshot.World.{has_haul_route_shape}
use sih.State.Snapshot.Shape.{accepts, either, absent, nothing}
use sih.State.Snapshot.Shape.Interfaces
use sih.State.Snapshot.Shape.Laws.{and-split}
use sih.State.Snapshot.Shape.Agree.{bool_ext, or-ext}
use sih.State.Snapshot.Agreement.{
  is_point_2d-eq, point_2d-at, is_text-eq, is_vehicle-eq, is_vehicle_telemetry-eq, is_range-eq,
  has_motion_shape-at, has_environment_shape-at, is_live_object-eq, is_radar_object-eq,
  has_emergency_shape-at, is_sensor_health-eq, is_spatial_point-eq, is_alert-eq,
}
use sih.State.Snapshot.SceneAgreement.{
  has_camera_shape-at, has_corridor_shape-at, has_occupancy_shape-at, has_recording_shape-at,
  has_reference_map_shape-at, has_simulation_shape-at, has_v2x_shape-at,
}

module _ (js : Runtime) where
  open js use {Num}

  has_haul_route_shape-at :
      (v : Value Num)
      → has_haul_route_shape js v
        ≡ accepts js (either (either absent nothing) Interfaces.haul_route) v
  unfolding has_haul_route_shape accepts Interfaces.haul_route
  has_haul_route_shape-at v = or-ext (is_undefined v || is_null v) _ _ (
      bool_ext _ _
        (λ h.
          let facts = simp (is_point_2d-eq js, point_2d-at js, and-split) at h in
          simp and-split (assumption facts))
        (λ h.
          let facts = simp and-split at h in
          simp (is_point_2d-eq js, point_2d-at js, and-split) (assumption facts)))

  ruleset parts = (
    is_text-eq, is_vehicle-eq, is_vehicle_telemetry-eq, has_reference_map_shape-at, is_range-eq,
    has_motion_shape-at, has_camera_shape-at, has_environment_shape-at, is_live_object-eq,
    is_radar_object-eq, has_emergency_shape-at, is_sensor_health-eq, has_corridor_shape-at,
    is_spatial_point-eq, has_occupancy_shape-at, is_alert-eq, has_recording_shape-at,
    has_simulation_shape-at, has_v2x_shape-at, has_haul_route_shape-at, and-split,
  )
