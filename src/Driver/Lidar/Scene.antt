-- ===== src/Driver/Lidar/Scene.antt =====
-- frontend/src/driver/lidarFrame.ts: what a scan picture is made of.
use sih.Prelude.{String, Bool, not, ◌&&◌, List}
use sih.Prelude.Runtime.{Runtime}
use sih.Spatial.Projection.{VehiclePoint3d}

pub data EntityKind : Type 0 where
  vehicle obstacle object : EntityKind

module _ (js : Runtime) where
  open js use {
    Num, decimal, is_finite, lt, le, neg, add, sub, mul, div, max_num, min_num, ceil, sin, cos,
    hypot, pi, to_lower_case, includes,
  }

  -- `[number, number, number]`
  pub record Triple : Type 0 where
    pub first : Num
    pub second : Num
    pub third : Num

  pub record LidarPath : Type 0 where
    pub id : String
    pub positions : List Triple
    pub closed : Bool

  pub record LidarEntity : Type 0 where
    pub id : String
    pub kind : EntityKind
    pub position : Triple
    pub size : Triple
    pub yaw_rad : Num

  abbrev pub lidar_radius_m : Num
  lidar_radius_m = decimal 80 0

  abbrev pub triple : Num → Num → Num → Triple
  triple a b c = record { first = a; second = b; third = c }

  unfoldable pub scene_point : Num → Num → Num → Triple
  scene_point x y height = triple x (max_num (decimal 0 0) height) (neg y)

  abbrev pub is_finite_triple : Triple → Bool
  is_finite_triple t = is_finite t.first && is_finite t.second && is_finite t.third

  abbrev pub is_in_view : VehiclePoint3d js → Bool
  is_in_view local = not (lt lidar_radius_m (hypot local.x_m local.y_m))
