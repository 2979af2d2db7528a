-- ===== src/Spatial/RouteGeometry.antt =====
-- frontend/src/spatial/routeGeometry.ts: points as the vehicle sees them, and roads cut to its view.
use sih.Prelude.{Bool, true, false, not, List, [], ◌∷◌, if◌then◌else◌}
use sih.Prelude.Runtime.{Runtime}
use sih.State.World.{VehiclePose}
use sih.Spatial.Projection.{VehiclePoint3d, radians}

pub data Axis : Type 0 where
  along_x along_y : Axis

module _ (js : Runtime) where
  open js use {Num, decimal, le, neg, add, sub, mul, div, sin, cos}

  unfoldable pub local_point : Num → Num → VehiclePose js → Num → VehiclePoint3d js
  local_point x_m y_m vehicle z_m =
      let angle = radians js vehicle.heading_deg in
      let x = sub x_m vehicle.x_m in
      let y = sub y_m vehicle.y_m in
      record {
        x_m = sub (mul x (cos angle)) (mul y (sin angle));
        y_m = add (mul x (sin angle)) (mul y (cos angle));
        z_m = z_m;
      }

  -- A half plane: `sign * (point[axis] - boundary) >= 0`.
  pub record Edge : Type 0 where
    pub axis : Axis
    pub boundary : Num
    pub sign : Num

  abbrev pub along : Axis → VehiclePoint3d js → Num
  along along_x p = p.x_m
  along along_y p = p.y_m

  abbrev pub is_inside : Edge → VehiclePoint3d js → Bool
  is_inside edge p = le (decimal 0 0) (mul edge.sign (sub (along edge.axis p) edge.boundary))

  -- `[axis]: boundary` comes last in the literal, so it replaces the coordinate.
  abbrev on_edge : Edge → VehiclePoint3d js → VehiclePoint3d js
  on_edge edge p = elim edge.axis [
    | along_x ↦ record p { x_m = edge.boundary }
    | along_y ↦ record p { y_m = edge.boundary }
  ]

  unfoldable pub crossing : Edge → VehiclePoint3d js → VehiclePoint3d js → VehiclePoint3d js
  crossing edge previous current =
      let t =
        div (sub edge.boundary (along edge.axis previous))
          (sub (along edge.axis current) (along edge.axis previous)) in
      on_edge edge (record {
        x_m = add previous.x_m (mul t (sub current.x_m previous.x_m));
        y_m = add previous.y_m (mul t (sub current.y_m previous.y_m));
        z_m = decimal 0 0;
      })

  abbrev differ : Bool → Bool → Bool
  differ true b = not b
  differ false b = b

  -- The inner loop, from `previous` on.
  unfoldable pub clip_from :
      Edge → VehiclePoint3d js → List (VehiclePoint3d js) → List (VehiclePoint3d js)
  unfolding crossing
  clip_from edge previous [] = []
  clip_from edge previous (current ∷ input) =
      let rest = clip_from edge current input in
      let kept = if is_inside edge current then current ∷ rest else rest in
      if differ (is_inside edge current) (is_inside edge previous)
      then crossing edge previous current ∷ kept
      else kept

  abbrev last_or : VehiclePoint3d js → List (VehiclePoint3d js) → VehiclePoint3d js
  last_or p [] = p
  last_or p (q ∷ points) = last_or q points

  unfoldable pub clip_edge : Edge → List (VehiclePoint3d js) → List (VehiclePoint3d js)
  unfolding clip_from
  clip_edge edge [] = []
  clip_edge edge (p ∷ points) = clip_from edge (last_or p points) (p ∷ points)

  -- With no points left, the rounds that follow leave none.
  unfoldable pub clip_road : List (VehiclePoint3d js) → Num → List (VehiclePoint3d js)
  unfolding clip_edge
  clip_road points radius =
      let one = decimal 1 0 in
      let left = clip_edge (record { axis = along_x; boundary = neg radius; sign = one }) points in
      let right = clip_edge (record { axis = along_x; boundary = radius; sign = neg one }) left in
      let near = clip_edge (record { axis = along_y; boundary = neg radius; sign = one }) right in
      clip_edge (record { axis = along_y; boundary = radius; sign = neg one }) near
