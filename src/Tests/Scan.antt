-- ===== src/Tests/Scan.antt =====
-- The scan picture around one vehicle of two (frontend/src/driver/lidarFrame.ts).
use sih.Prelude.{
  ℕ, arith, false, ◌≡◌, refl, true, none, some, Option, [], ◌∷◌, List, All, length, filter,
}
use sih.Tests.Engine.{Milli, plus, minus, nan, engine}
use sih.Tests.Fleet.{world, pose}
use sih.State.World.{VehiclePose, WorldState, MapFeature}
use sih.Driver.Lidar.Scene.{Triple, LidarPath, LidarEntity}
use sih.Driver.Lidar.Road.{build_road_data, sample_edges, sample_edge, clipped_path}
use sih.Driver.Lidar.Entities.{
  normalize_angle_radians, relative_heading, build_entities, is_finite_entity, turn_down, turn_up,
  peer_entity, peer_entities, object_entities, radar_entities, obstacle_at, obstacle_entity,
}
use sih.Driver.Lidar.Angles.{IsTurning, turn}
use sih.Driver.Lidar.Laws.{IsDrawn, IsReported, build_entities-IsReported}

abbrev other : VehiclePose engine
other = record pose { vehicle_id = "DUMPER_09"; x_m = plus 5000; heading_deg = plus 90000 }

abbrev near_world : WorldState engine
near_world = record world { vehicles = pose ∷ other ∷ [] }

scanning : Unit {0}
unfolding normalize_angle_radians build_entities turn_down turn_up peer_entity peer_entities
    object_entities radar_entities obstacle_at obstacle_entity filter
scanning = tt

abbrev count_of : Option (List (LidarEntity engine)) → ℕ
count_of none = 0
count_of (some es) = length es

-- The vehicle itself is not drawn.
one_other : count_of (build_entities engine 1 near_world pose) ≡ 1
unfolding scanning
one_other = refl

turned_right :
    normalize_angle_radians engine 1 (relative_heading engine pose other) ≡ some (plus 1571)
unfolding scanning
turned_right = refl

engine-IsTurning : IsTurning engine
engine-IsTurning = record { down = down; up = up; above = above }
  where
    down :
        (a : Milli)
        → engine.le a (turn engine) ≡ true
        → engine.lt (plus 3142) (engine.sub a (turn engine)) ≡ false
    down (plus n) h = ground arith
    down (minus n) h = refl
    down nan h = absurd (cc)

    up :
        (a : Milli)
        → engine.le (minus 6284) a ≡ true
        → engine.lt (engine.add a (turn engine)) (minus 3142) ≡ false
    up (plus n) h = refl
    up (minus n) h = ground arith
    up nan h = absurd (cc)

    above :
        (a : Milli)
        → engine.lt (plus 3142) a ≡ true
        → engine.le (minus 6284) (engine.sub a (turn engine)) ≡ true
    above (plus n) h = ground arith
    above (minus n) h = absurd (cc)
    above nan h = absurd (cc)

build_entities-IsReported_example :
    (es : List (LidarEntity engine)) × (build_entities engine 1 near_world pose ≡ some es)
    × All (λ e. (is_finite_entity engine e ≡ true) × IsReported engine near_world pose e) es
    × All (IsDrawn engine near_world pose 1 es) near_world.vehicles
build_entities-IsReported_example =
    build_entities-IsReported engine near_world pose engine-IsTurning 0
      ((refl, refl), ((refl, refl), tt))

abbrev lane : MapFeature engine
lane = record {
  feature_id = "lane";
  feature_type = "ROAD";
  geometry_type = "POLYLINE";
  points = record { x_m = plus 0; y_m = plus 0 } ∷ record { x_m = plus 3000; y_m = plus 0 } ∷ [];
  label = "";
}

abbrev counts : Option (List (Triple engine) × List (LidarPath engine)) → Option (ℕ × ℕ)
counts none = none
counts (some (road, paths)) = some (length road, length paths)

-- 3 m of road: the two ends and a point between them, and one path.
lane_points : counts (build_road_data engine 4 pose (lane ∷ []) []) ≡ some (3, 1)
unfolding build_road_data sample_edges sample_edge clipped_path filter
lane_points = refl
