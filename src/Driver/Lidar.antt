-- ===== src/Driver/Lidar.antt =====
-- frontend/src/driver/lidarFrame.ts: the driver's scan picture as a whole. Numbers stand before
-- they are rounded to the 32 bits of the arrays.
pub mod Scene
pub mod Road
pub mod Entities
pub mod Angles
pub mod Laws
use sih.Prelude.{
  ℕ, zero, suc, leb, length, String, Bool, true, false, not, ◌&&◌, ◌||◌, List, [], ◌∷◌, ◌++◌, map,
  filter, find, Option, none, some, if◌then◌else◌, ◌===◌, ◌⊕◌,
}
use sih.Prelude.Runtime.{Runtime}
use sih.State.World.{
  VehiclePose, WorldState, HaulRouteState, Point2d, MapFeature, LiveObject, RadarObject,
  SpatialPoint,
}
use sih.State.SpatialPoints.{available_spatial_points}
use sih.Spatial.Projection.{VehiclePoint3d, world_point_to_vehicle, radians}
use sih.Spatial.RouteGeometry.{local_point, clip_road}
use sih.Driver.Lidar.Scene.{
  EntityKind, vehicle, obstacle, object, Triple, LidarPath, LidarEntity, lidar_radius_m, triple,
  scene_point, is_finite_triple, is_in_view,
}
use sih.Driver.Lidar.Road.{road_features, build_road_data}
use sih.Driver.Lidar.Entities.{build_entities}

module _ (js : Runtime) where
  open js use {
    Num, decimal, is_finite, lt, le, neg, add, sub, mul, div, max_num, min_num, ceil, sin, cos,
    hypot, pi, to_lower_case, includes,
  }

  pub record LidarFrame : Type 0 where
    pub road_positions : List (Triple js)
    pub return_positions : List (Triple js)
    pub return_colors : List (Triple js)
    pub paths : List (LidarPath js)
    pub entities : List (LidarEntity js)
    pub return_count : ℕ
    pub road_point_count : ℕ

  unfoldable pub height_color : Num → Triple js
  height_color height =
      let t = max_num (decimal 0 0) (min_num (decimal 1 0) (div height (decimal 4 0))) in
      if lt t (decimal 25 2)
      then triple js (decimal 8 2) (add (decimal 42 2) (mul t (decimal 16 1))) (decimal 1 0)
      else if lt t (decimal 5 1)
      then triple js (decimal 8 2) (decimal 1 0)
          (sub (decimal 1 0) (mul (sub t (decimal 25 2)) (decimal 28 1)))
      else if lt t (decimal 75 2)
      then triple js (mul (sub t (decimal 5 1)) (decimal 32 1)) (decimal 1 0) (decimal 18 2)
      else triple js (decimal 1 0) (sub (decimal 1 0) (mul (sub t (decimal 75 2)) (decimal 32 1)))
          (decimal 8 2)

  -- The positions and the colours of the returns.
  unfoldable pub returns_of :
      VehiclePose js → List (SpatialPoint js) → List (Triple js) × List (Triple js)
  unfolding world_point_to_vehicle scene_point height_color
  returns_of own [] = ([], [])
  returns_of own (point ∷ points) =
      let rest = returns_of own points in
      let local = world_point_to_vehicle js point own in
      let position = scene_point js local.x_m local.y_m local.z_m in
      if is_finite_triple js position
      then (position ∷ rest.0, height_color local.z_m ∷ rest.1)
      else rest

  unfoldable pub build_lidar_frame : ℕ → WorldState js → VehiclePose js → Option LidarFrame
  unfolding road_features build_road_data available_spatial_points build_entities returns_of
  build_lidar_frame fuel world own =
      elim (build_road_data js fuel own (road_features js world) []) [
        | none ↦ none
        | some (road, paths) ↦
            elim (available_spatial_points js world.spatial_points world.sensor_health true
              world.generated_at_ms own (lidar_radius_m js) none) [
                | none ↦ none
                | some points ↦ elim (build_entities js fuel world own) [
                  | none ↦ none
                  | some entities ↦
                      let returns = returns_of own points in
                      some (record {
                        road_positions = road;
                        return_positions = returns.0;
                        return_colors = returns.1;
                        paths = paths;
                        entities = entities;
                        return_count = length returns.0;
                        road_point_count = length road;
                      })
                ]
              ]
      ]
