-- ===== src/Driver/Lidar/Road.antt =====
-- frontend/src/driver/lidarFrame.ts: the points and the paths of the roads around the vehicle. The
-- loop over an edge compares doubles and runs on fuel: `none` says that it was used up.
use sih.Prelude.{
  ℕ, zero, suc, leb, length, String, Bool, not, ◌&&◌, ◌||◌, List, [], ◌∷◌, ◌++◌, map, filter, find,
  Option, none, some, if◌then◌else◌, ◌===◌,
}
use sih.Prelude.Runtime.{Runtime}
use sih.State.World.{VehiclePose, WorldState, HaulRouteState, Point2d, MapFeature}
use sih.Spatial.Projection.{VehiclePoint3d}
use sih.Spatial.RouteGeometry.{local_point, clip_road}
use sih.Driver.Lidar.Scene.{Triple, LidarPath, lidar_radius_m, scene_point, is_in_view}

module _ (js : Runtime) where
  open js use {
    Num, decimal, is_finite, lt, le, neg, add, sub, mul, div, max_num, min_num, ceil, sin, cos,
    hypot, pi, to_lower_case, includes,
  }

  abbrev pub road_point_spacing_m : Num
  road_point_spacing_m = decimal 16 1

  abbrev is_road : MapFeature js → Bool
  is_road feature = feature.feature_type === "ROAD"

  abbrev is_route : MapFeature js → Bool
  is_route feature = feature.feature_type === "ROUTE" || feature.feature_type === "CENTERLINE"

  -- `world.haul_route?.planned_path`, as a feature if it has points
  unfoldable pub planned_feature : Option (HaulRouteState js) → List (MapFeature js)
  planned_feature none = []
  planned_feature (some route) = elim route.planned_path [
    | [] ↦ []
    | p ∷ points ↦
        record {
          feature_id = "planned-path";
          feature_type = "ROUTE";
          geometry_type = "POLYLINE";
          points = p ∷ points;
          label = "Planned path";
        }
        ∷ []
  ]

  unfoldable pub road_features : WorldState js → List (MapFeature js)
  unfolding filter find planned_feature
  road_features world = elim (filter is_road world.map_features) [
    | road ∷ roads ↦ road ∷ roads
    | [] ↦ elim (find is_route world.map_features) [
      | some route ↦ route ∷ []
      | none ↦ planned_feature world.haul_route
    ]
  ]

  abbrev pub seen_from : VehiclePose js → Point2d js → VehiclePoint3d js
  seen_from own point = local_point js point.x_m point.y_m own (decimal 0 0)

  abbrev pub between : Point2d js → Point2d js → Num → Point2d js
  between start end t = record {
    x_m = add start.x_m (mul (sub end.x_m start.x_m) t);
    y_m = add start.y_m (mul (sub end.y_m start.y_m) t);
  }

  abbrev pub with_road_point : VehiclePoint3d js → List (Triple js) → List (Triple js)
  with_road_point local positions =
      if is_in_view js local
      then positions ++ scene_point js local.x_m local.y_m (decimal 25 3) ∷ []
      else positions

  -- The loop over the samples of an edge, from `sample` on.
  unfoldable pub sample_edge :
      ℕ
      → VehiclePose js
      → Point2d js
      → Point2d js
      → Num
      → ℕ
      → List (Triple js)
      → Option (List (Triple js))
  unfolding local_point scene_point
  sample_edge zero own start end sample_count sample positions =
      if le (decimal sample 0) sample_count && not (leb 2500 (length positions))
      then none
      else some positions
  sample_edge (suc fuel) own start end sample_count sample positions =
      let local = seen_from own (between start end (div (decimal sample 0) sample_count)) in
      let rest =
        sample_edge fuel own start end sample_count (suc sample)
          (with_road_point local positions) in
      if le (decimal sample 0) sample_count && not (leb 2500 (length positions))
      then rest
      else some positions

  abbrev pub edges_from :
      Bool → Point2d js → Point2d js → List (Point2d js) → List (Point2d js × Point2d js)
  edges_from is_closed origin start [] = if is_closed then (start, origin) ∷ [] else []
  edges_from is_closed origin start (end ∷ points) =
      (start, end) ∷ edges_from is_closed origin end points

  abbrev pub sample_count_of : Point2d js → Point2d js → Num
  sample_count_of start end =
      max_num (decimal 1 0)
        (ceil (div (hypot (sub end.x_m start.x_m) (sub end.y_m start.y_m)) road_point_spacing_m))

  unfoldable pub sample_edges :
      ℕ
      → VehiclePose js
      → List (Point2d js × Point2d js)
      → List (Triple js)
      → Option (List (Triple js))
  unfolding sample_edge
  sample_edges fuel own [] positions = some positions
  sample_edges fuel own ((start, end) ∷ edges) positions =
      elim (sample_edge fuel own start end (sample_count_of start end) 0 positions) [
        | none ↦ none
        | some sampled ↦ sample_edges fuel own edges sampled
      ]

  abbrev is_close : VehiclePoint3d js → Bool
  is_close point = le (hypot point.x_m point.y_m) (lidar_radius_m js)

  abbrev path_point : VehiclePoint3d js → Triple js
  path_point point = scene_point js point.x_m point.y_m (decimal 4 2)

  -- The path of a feature whose points in view are `clipped`.
  abbrev pub path_of : String → Bool → List (VehiclePoint3d js) → List (LidarPath js)
  path_of id is_closed clipped =
      if leb 2 (length clipped)
      then record { id = id; positions = map path_point clipped; closed = is_closed } ∷ []
      else []

  unfoldable pub clipped_path : Bool → List (VehiclePoint3d js) → List (VehiclePoint3d js)
  unfolding clip_road filter
  clipped_path is_closed local_path =
      if is_closed then clip_road js local_path (lidar_radius_m js) else filter is_close local_path

  unfoldable pub build_road_data :
      ℕ
      → VehiclePose js
      → List (MapFeature js)
      → List (Triple js)
      → Option (List (Triple js) × List (LidarPath js))
  unfolding clipped_path sample_edges
  build_road_data fuel own [] positions = some (positions, [])
  build_road_data fuel own (feature ∷ features) positions = elim feature.points [
    | [] ↦ build_road_data fuel own features positions
    | p ∷ [] ↦ build_road_data fuel own features positions
    | p ∷ q ∷ points ↦
        let is_closed = feature.geometry_type === "POLYGON" in
        elim (sample_edges fuel own (edges_from is_closed p p (q ∷ points)) positions) [
          | none ↦ none
          | some sampled ↦ elim (build_road_data fuel own features sampled) [
            | none ↦ none
            | some (road, paths) ↦
                let local_path = map (seen_from own) (p ∷ q ∷ points) in
                some (
                  road,
                  path_of feature.feature_id is_closed (clipped_path is_closed local_path) ++ paths,
                )
          ]
        ]
  ]
