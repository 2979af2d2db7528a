-- ===== src/Spatial/ForwardHazard.antt =====
-- frontend/src/spatial/forwardHazard.ts: what stands ahead of a simulated truck.
pub mod Laws
use sih.Prelude.{
  String, Bool, true, false, not, ◌&&◌, ◌||◌, List, [], ◌∷◌, ◌++◌, Option, none, some,
  if◌then◌else◌, ◌===◌, ◌⊕◌,
}
use sih.Prelude.Runtime.{Runtime}
use sih.Prelude.Sort.{sort}
use sih.State.World.{
  DataMode, live, simulated, replay, VehiclePose, WorldState, HaulRouteState, Point2d,
}
use sih.Spatial.Projection.{VehiclePoint3d}
use sih.Spatial.RouteGeometry.{local_point}

pub data HazardKind : Type 0 where
  truck rock : HazardKind

abbrev pub is_simulated : DataMode → Bool
is_simulated simulated = true
is_simulated _ = false

abbrev same_mode : DataMode → DataMode → Bool
same_mode live live = true
same_mode simulated simulated = true
same_mode replay replay = true
same_mode _ _ = false

abbrev encounter_title : HazardKind → String
encounter_title rock = "Rock encounter"
encounter_title truck = "Truck encounter"

abbrev encounter_detail : HazardKind → String
encounter_detail rock = "Rock nearby. Keep clear."
encounter_detail truck = "Truck nearby. Keep clear."

module _ (js : Runtime) where
  open js use {Num, decimal, lt, le, add, sub, mul, abs, max_num, min_num, to_fixed}

  pub record ForwardHazard : Type 0 where
    pub id : String
    pub kind : HazardKind
    pub distance_m : Num
    pub title : String
    pub detail : String
    pub last_seen_ms : Num

  abbrev pub encounter_hold_ms : Num
  encounter_hold_ms = decimal 8000 0

  abbrev pub enter_distance : VehiclePose js → Num
  enter_distance vehicle =
      max_num (decimal 75 1)
        (min_num (decimal 12 0) (add (mul vehicle.speed_mps (decimal 4 0)) (decimal 2 0)))

  -- `previous?.id === id`
  abbrev is_held : Option ForwardHazard → String → Bool
  is_held none id = false
  is_held (some previous) id = previous.id === id

  unfoldable pub eligible : VehiclePose js → Option ForwardHazard → String → Num → Num → Num → Bool
  eligible vehicle previous id x y half_width =
      let held = is_held previous id in
      lt (decimal 16 1) y
      && le y (add (enter_distance vehicle) (if held then decimal 2 0 else decimal 0 0))
      && le (abs x) (add half_width (if held then decimal 35 2 else decimal 0 0))

  module _ (world : WorldState js) (vehicle : VehiclePose js)
      (previous : Option ForwardHazard) where
    abbrev rock_seen_at : Point2d js → VehiclePoint3d js
    rock_seen_at place = local_point js place.x_m place.y_m vehicle (decimal 0 0)

    abbrev pub is_rock_ahead : HaulRouteState js → Point2d js → Bool
    is_rock_ahead route place =
        route.obstacle_detected
        && eligible vehicle previous "rock" (rock_seen_at place).x_m (rock_seen_at place).y_m
            (decimal 27 1)

    -- Lines 29 to 39, where there is a route.
    unfoldable pub rock_at : HaulRouteState js → Option (Point2d js) → List ForwardHazard
    unfolding eligible local_point
    rock_at route none = []
    rock_at route (some place) =
        let distance =
          max_num (decimal 0 0)
            (sub (sub (rock_seen_at place).y_m (decimal 16 1)) route.obstacle_radius_m) in
        if is_rock_ahead route place
        then record {
          id = "rock";
          kind = rock;
          distance_m = distance;
          title = "Rock ahead";
          detail = "Rock " ⊕ to_fixed distance 1 ⊕ " m ahead. Keep clear.";
          last_seen_ms = world.generated_at_ms;
        }
          ∷ []
        else []

    unfoldable pub rock_hazards : Option (HaulRouteState js) → List ForwardHazard
    unfolding rock_at
    rock_hazards none = []
    rock_hazards (some route) = rock_at route route.obstacle

    -- Line 44.
    abbrev pub is_passed_over : VehiclePose js → Bool
    is_passed_over peer =
        (peer.vehicle_id === vehicle.vehicle_id)
        || not (same_mode peer.mode world.mode)
        || lt peer.position_confidence (decimal 5 1)

    -- The peer where this vehicle sees it.
    abbrev seen_at : VehiclePose js → VehiclePoint3d js
    seen_at peer = local_point js peer.x_m peer.y_m vehicle (decimal 0 0)

    abbrev pub is_ahead : VehiclePose js → Bool
    is_ahead peer =
        eligible vehicle previous ("truck:" ⊕ peer.vehicle_id) (seen_at peer).x_m (seen_at peer).y_m
          (decimal 145 2)

    abbrev truck_hazard : VehiclePose js → ForwardHazard
    truck_hazard peer =
        let distance = max_num (decimal 0 0) (sub (seen_at peer).y_m (decimal 32 1)) in
        record {
          id = "truck:" ⊕ peer.vehicle_id;
          kind = truck;
          distance_m = distance;
          title = "Truck ahead";
          detail = peer.vehicle_id ⊕ " is " ⊕ to_fixed distance 1 ⊕ " m ahead. Keep clear.";
          last_seen_ms = world.generated_at_ms;
        }

    unfoldable pub truck_hazards : List (VehiclePose js) → List ForwardHazard
    unfolding eligible local_point
    truck_hazards [] = []
    truck_hazards (peer ∷ peers) =
        let rest = truck_hazards peers in
        if is_passed_over peer
        then rest
        else if not (is_ahead peer)
        then rest
        else truck_hazard peer ∷ rest

    unfoldable pub candidates : List ForwardHazard
    unfolding rock_hazards truck_hazards
    candidates = rock_hazards world.haul_route ++ truck_hazards world.vehicles

  abbrev pub is_farther : ForwardHazard → ForwardHazard → Bool
  is_farther a b = lt (decimal 0 0) (sub a.distance_m b.distance_m)

  abbrev pub is_recent : Num → ForwardHazard → Bool
  is_recent now previous =
      le previous.last_seen_ms now && lt (sub now previous.last_seen_ms) encounter_hold_ms

  abbrev pub encountered : ForwardHazard → ForwardHazard
  encountered previous = record previous {
    title = encounter_title previous.kind;
    detail = encounter_detail previous.kind;
  }

  -- The last `if`: a hazard that was seen less than 8 s ago is held.
  unfoldable pub held_hazard : WorldState js → Option ForwardHazard → Option ForwardHazard
  held_hazard world none = none
  held_hazard world (some previous) =
      if is_recent world.generated_at_ms previous then some (encountered previous) else none

  abbrev pub first_or : Option ForwardHazard → List ForwardHazard → Option ForwardHazard
  first_or fallback [] = fallback
  first_or fallback (h ∷ hazards) = some h

  unfoldable pub select_simulated_forward_hazard :
      WorldState js → VehiclePose js → Option ForwardHazard → Option ForwardHazard
  unfolding candidates sort held_hazard
  select_simulated_forward_hazard world vehicle previous =
      if not (is_simulated world.mode) || lt vehicle.position_confidence (decimal 5 1)
      then none
      else first_or (held_hazard world previous)
          (sort is_farther (candidates world vehicle previous))

  -- What a render of the driver's dashboard sees (driver/DriverDashboard.tsx).
  pub record Frame : Type 0 where
    pub telemetry_available : Bool
    pub world : WorldState js
    pub vehicle : VehiclePose js

  unfoldable pub forward : Frame → Option ForwardHazard → Option ForwardHazard
  unfolding select_simulated_forward_hazard
  forward f previous =
      if f.telemetry_available
      then select_simulated_forward_hazard f.world f.vehicle previous
      else none

  -- One render after another, with `forwardRef.current` in between.
  unfoldable pub watch : List Frame → Option ForwardHazard → Option ForwardHazard
  unfolding forward
  watch [] previous = previous
  watch (f ∷ frames) previous = watch frames (forward f previous)
