-- ===== src/Driver/Lidar/Entities.antt =====
-- frontend/src/driver/lidarFrame.ts: the vehicles, the objects and the obstacle of a scan picture.
-- The loops that turn an angle into its range run on fuel: `none` says that it was used up.
use sih.Prelude.{
  ℕ, zero, suc, String, Bool, not, ◌&&◌, ◌||◌, List, [], ◌∷◌, ◌++◌, filter, Option, none, some,
  if◌then◌else◌, ◌===◌, ◌⊕◌,
}
use sih.Prelude.Runtime.{Runtime}
use sih.State.World.{VehiclePose, WorldState, HaulRouteState, Point2d, LiveObject, RadarObject}
use sih.Spatial.Projection.{VehiclePoint3d, radians}
use sih.Spatial.RouteGeometry.{local_point}
use sih.Driver.Lidar.Scene.{
  EntityKind, vehicle, obstacle, object, Triple, LidarEntity, lidar_radius_m, triple, scene_point,
  is_finite_triple, is_in_view,
}

module _ (js : Runtime) where
  open js use {
    Num, decimal, is_finite, lt, le, neg, add, sub, mul, div, max_num, min_num, ceil, sin, cos,
    hypot, pi, to_lower_case, includes,
  }

  -- The first loop of `normalizeAngleRadians`.
  unfoldable pub turn_down : ℕ → Num → Option Num
  turn_down zero angle = if lt pi angle then none else some angle
  turn_down (suc fuel) angle =
      let rest = turn_down fuel (sub angle (mul pi (decimal 2 0))) in
      if lt pi angle then rest else some angle

  -- The second loop.
  unfoldable pub turn_up : ℕ → Num → Option Num
  turn_up zero angle = if lt angle (neg pi) then none else some angle
  turn_up (suc fuel) angle =
      let rest = turn_up fuel (add angle (mul pi (decimal 2 0))) in
      if lt angle (neg pi) then rest else some angle

  unfoldable pub normalize_angle_radians : ℕ → Num → Option Num
  unfolding turn_down turn_up
  normalize_angle_radians fuel value = elim (turn_down fuel value) [
    | none ↦ none
    | some angle ↦ turn_up fuel angle
  ]

  unfoldable pub entity_size : String → Triple js
  entity_size object_type =
      let type = to_lower_case object_type in
      if includes type "truck" || includes type "vehicle"
      then triple js (decimal 32 1) (decimal 31 1) (decimal 62 1)
      else if includes type "person"
      then triple js (decimal 8 1) (decimal 19 1) (decimal 8 1)
      else if includes type "rock" || includes type "obstacle"
      then triple js (decimal 14 1) (decimal 13 1) (decimal 14 1)
      else triple js (decimal 18 1) (decimal 18 1) (decimal 18 1)

  -- An entity at a point that the vehicle sees at `local`, if that is in view.
  abbrev pub entity_at :
      VehiclePoint3d js → String → EntityKind → Num → Triple js → Num → List (LidarEntity js)
  entity_at local id kind height size yaw_rad =
      if is_in_view js local
      then record {
        id = id;
        kind = kind;
        position = scene_point js local.x_m local.y_m height;
        size = size;
        yaw_rad = yaw_rad;
      }
        ∷ []
      else []

  abbrev pub is_other_vehicle : VehiclePose js → VehiclePose js → Bool
  is_other_vehicle own peer =
      not (peer.vehicle_id === own.vehicle_id || lt peer.position_confidence (decimal 5 1))

  abbrev pub relative_heading : VehiclePose js → VehiclePose js → Num
  relative_heading own peer = radians js (sub peer.heading_deg own.heading_deg)

  abbrev pub found_peer : VehiclePose js → VehiclePose js → Num → LidarEntity js
  found_peer own peer yaw_rad =
      let local = local_point js peer.x_m peer.y_m own (decimal 0 0) in
      record {
        id = "vehicle:" ⊕ peer.vehicle_id;
        kind = vehicle;
        position = scene_point js local.x_m local.y_m (decimal 155 2);
        size = triple js (decimal 32 1) (decimal 31 1) (decimal 62 1);
        yaw_rad = yaw_rad;
      }

  -- The angle is computed for the peers in view only.
  unfoldable pub peer_entity : ℕ → VehiclePose js → VehiclePose js → Option (List (LidarEntity js))
  unfolding normalize_angle_radians local_point scene_point
  peer_entity fuel own peer =
      let local = local_point js peer.x_m peer.y_m own (decimal 0 0) in
      if not (is_other_vehicle own peer && is_in_view js local)
      then some []
      else elim (normalize_angle_radians fuel (relative_heading own peer)) [
        | none ↦ none
        | some yaw_rad ↦ some (found_peer own peer yaw_rad ∷ [])
      ]

  unfoldable pub peer_entities :
      ℕ → VehiclePose js → List (VehiclePose js) → Option (List (LidarEntity js))
  unfolding peer_entity
  peer_entities fuel own [] = some []
  peer_entities fuel own (peer ∷ peers) = elim (peer_entity fuel own peer) [
    | none ↦ none
    | some entities ↦ elim (peer_entities fuel own peers) [
      | none ↦ none
      | some others ↦ some (entities ++ others)
    ]
  ]

  unfoldable pub object_entities : VehiclePose js → List (LiveObject js) → List (LidarEntity js)
  unfolding entity_size local_point scene_point
  object_entities own [] = []
  object_entities own (seen ∷ objects) =
      let rest = object_entities own objects in
      let size = entity_size seen.object_type in
      if lt seen.confidence (decimal 5 1)
      then rest
      else entity_at (local_point js seen.x_m seen.y_m own (decimal 0 0))
          ("object:" ⊕ seen.object_id) object (div size.second (decimal 2 0)) size (decimal 0 0)
        ++ rest

  abbrev pub radar_point : RadarObject js → Triple js
  radar_point detection =
      let bearing = radians js detection.bearing_deg in
      scene_point js (mul (sin bearing) detection.range_m) (mul (cos bearing) detection.range_m)
        (decimal 1 0)

  unfoldable pub radar_entities : List (RadarObject js) → List (LidarEntity js)
  unfolding scene_point
  radar_entities [] = []
  radar_entities (detection ∷ detections) =
      let rest = radar_entities detections in
      if lt detection.confidence (decimal 5 1) || lt (lidar_radius_m js) detection.range_m
      then rest
      else record {
        id = "radar:" ⊕ detection.detection_id;
        kind = object;
        position = radar_point detection;
        size = triple js (decimal 18 1) (decimal 2 0) (decimal 18 1);
        yaw_rad = decimal 0 0;
      }
        ∷ rest

  unfoldable pub obstacle_at :
      VehiclePose js → HaulRouteState js → Option (Point2d js) → List (LidarEntity js)
  unfolding local_point scene_point
  obstacle_at own route none = []
  obstacle_at own route (some point) =
      let local = local_point js point.x_m point.y_m own (decimal 0 0) in
      let radius = max_num (decimal 3 1) route.obstacle_radius_m in
      let diameter = mul radius (decimal 2 0) in
      if le (hypot local.x_m local.y_m) (lidar_radius_m js)
      then record {
        id = "haul-obstacle";
        kind = obstacle;
        position = scene_point js local.x_m local.y_m radius;
        size = triple js diameter diameter diameter;
        yaw_rad = decimal 0 0;
      }
        ∷ []
      else []

  -- `world.haul_route?.obstacle_detected ? world.haul_route.obstacle : null`
  unfoldable pub obstacle_entity :
      VehiclePose js → Option (HaulRouteState js) → List (LidarEntity js)
  unfolding obstacle_at
  obstacle_entity own none = []
  obstacle_entity own (some route) =
      if route.obstacle_detected then obstacle_at own route route.obstacle else []

  abbrev pub is_finite_entity : LidarEntity js → Bool
  is_finite_entity entity =
      is_finite_triple js entity.position
      && is_finite_triple js entity.size
      && is_finite entity.yaw_rad

  unfoldable pub build_entities :
      ℕ → WorldState js → VehiclePose js → Option (List (LidarEntity js))
  unfolding peer_entities object_entities radar_entities obstacle_entity filter
  build_entities fuel world own = elim (peer_entities fuel own world.vehicles) [
    | none ↦ none
    | some peers ↦ some (
        filter is_finite_entity (
          ((peers ++ object_entities own world.live_objects) ++ radar_entities world.radar_objects)
          ++ obstacle_entity own world.haul_route))
  ]
