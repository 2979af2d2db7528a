-- ===== src/Driver/Lidar/Laws.antt =====
-- lidarFrame.ts, buildEntities: what is drawn has been reported, and is in view.
use sih.Prelude.{
  filter, mem-filter_of, mem-append_left, mem-append_right, ℕ, ◌≡◌, refl, ◌⊎◌, inl, inr, true,
  false, ◌||◌, List, [], ◌∷◌, ◌++◌, Option, none, some, ◌⊕◌, ◌===◌, arith, suc, All-imp, Memᴰ, All,
  All-append, All-if, All-of_mem, All-pair, All-filter, All-filter_of, Bool-cases,
}
use sih.Prelude.Runtime.{Runtime}
use sih.State.World.{VehiclePose, WorldState, HaulRouteState, LiveObject, RadarObject, Point2d}
use sih.Spatial.RouteGeometry.{local_point}
use sih.Spatial.Projection.{VehiclePoint3d}
use sih.Driver.Lidar.Scene.{LidarEntity, lidar_radius_m, scene_point, is_in_view}
use sih.Driver.Lidar.Entities.{
  normalize_angle_radians, relative_heading, is_other_vehicle, peer_entity, peer_entities,
  object_entities, radar_entities, radar_point, obstacle_at, obstacle_entity, found_peer,
  build_entities, is_finite_entity,
}
use sih.Driver.Lidar.Angles.{IsTurning, IsWithinTurn, normalize_ends}

module _ (js : Runtime) where
  open js use {Num, decimal, lt, le, hypot}

  module _ (world : WorldState js) (own : VehiclePose js) where
    abbrev pub seen_at : Num → Num → VehiclePoint3d js
    seen_at x y = local_point js x y own (decimal 0 0)

    -- The entity stands where the vehicle sees a point of the world, and that is in view.
    abbrev pub IsInView : LidarEntity js → Num → Num → Type 0
    IsInView e x y =
        (is_in_view js (seen_at x y) ≡ true)
        × (height : Num) × (e.position ≡ scene_point js (seen_at x y).x_m (seen_at x y).y_m height)

    abbrev pub IsPeer : LidarEntity js → Type 0
    IsPeer e =
        (peer : VehiclePose js) × Memᴰ peer world.vehicles
        × (e.id ≡ "vehicle:" ⊕ peer.vehicle_id)
        × ((peer.vehicle_id === own.vehicle_id) ≡ false)
        × (lt peer.position_confidence (decimal 5 1) ≡ false)
        × IsInView e peer.x_m peer.y_m

    abbrev pub IsObject : LidarEntity js → Type 0
    IsObject e =
        (seen : LiveObject js) × Memᴰ seen world.live_objects
        × (e.id ≡ "object:" ⊕ seen.object_id)
        × (lt seen.confidence (decimal 5 1) ≡ false)
        × IsInView e seen.x_m seen.y_m

    abbrev pub IsDetection : LidarEntity js → Type 0
    IsDetection e =
        (detection : RadarObject js) × Memᴰ detection world.radar_objects
        × (e.id ≡ "radar:" ⊕ detection.detection_id)
        × (lt detection.confidence (decimal 5 1) ≡ false)
        × (lt (decimal 80 0) detection.range_m ≡ false)
        × (e.position ≡ radar_point js detection)

    abbrev pub IsObstacle : LidarEntity js → Type 0
    IsObstacle e =
        (route : HaulRouteState js) × (point : Point2d js) × (world.haul_route ≡ some route)
        × (route.obstacle_detected ≡ true)
        × (route.obstacle ≡ some point)
        × (e.id ≡ "haul-obstacle")
        × ((height : Num) × (e.position
              ≡ scene_point js (seen_at point.x_m point.y_m).x_m (seen_at point.x_m point.y_m).y_m
                  height))
        × (le (hypot (seen_at point.x_m point.y_m).x_m (seen_at point.x_m point.y_m).y_m)
              (lidar_radius_m js)
            ≡ true)

    abbrev pub IsReported : LidarEntity js → Type 0
    IsReported e = IsPeer e ⊎ (IsObject e ⊎ (IsDetection e ⊎ IsObstacle e))

    abbrev HasAngle : ℕ → VehiclePose js → Type 0
    HasAngle fuel peer =
        (yaw : Num) × (normalize_angle_radians js fuel (relative_heading js own peer) ≡ some yaw)

    -- A vehicle of the world is among the entities, unless it is the vehicle itself, is reported with
    -- a low confidence, or is out of view.
    abbrev IsMet : ℕ → List (LidarEntity js) → VehiclePose js → Type 0
    IsMet fuel es p =
        ((p.vehicle_id === own.vehicle_id || lt p.position_confidence (decimal 5 1)) ≡ true)
        ⊎ ((is_in_view js (seen_at p.x_m p.y_m) ≡ false)
            ⊎ ((yaw : Num) × (normalize_angle_radians js fuel (relative_heading js own p)
                  ≡ some yaw)
                × Memᴰ (found_peer js own p yaw) es))

    -- The same of what is drawn in the end: an entity whose numbers are not finite is left out.
    abbrev pub IsDrawn : ℕ → List (LidarEntity js) → VehiclePose js → Type 0
    IsDrawn fuel es p =
        ((p.vehicle_id === own.vehicle_id || lt p.position_confidence (decimal 5 1)) ≡ true)
        ⊎ ((is_in_view js (seen_at p.x_m p.y_m) ≡ false)
            ⊎ ((yaw : Num) × (normalize_angle_radians js fuel (relative_heading js own p)
                  ≡ some yaw)
                × ((is_finite_entity js (found_peer js own p yaw) ≡ false)
                    ⊎ ((e : LidarEntity js) × Memᴰ e es × (e.id ≡ "vehicle:" ⊕ p.vehicle_id)))))

    IsMet-IsMet :
        (fuel : ℕ) (es fs : List (LidarEntity js)) (p : VehiclePose js)
        → ((e : LidarEntity js) → Memᴰ e es → Memᴰ e fs)
        → IsMet fuel es p
        → IsMet fuel fs p
    IsMet-IsMet fuel es fs p into (inl own_or_unsure) = inl own_or_unsure
    IsMet-IsMet fuel es fs p into (inr (inl away)) = inr (inl away)
    IsMet-IsMet fuel es fs p into (inr (inr (yaw, turned, m))) =
        inr (inr (yaw, turned, into (found_peer js own p yaw) m))

    IsMet-IsDrawn :
        (fuel : ℕ) (es : List (LidarEntity js)) (p : VehiclePose js)
        → IsMet fuel es p
        → IsDrawn fuel (filter (is_finite_entity js) es) p
    IsMet-IsDrawn fuel es p (inl own_or_unsure) = inl own_or_unsure
    IsMet-IsDrawn fuel es p (inr (inl away)) = inr (inl away)
    IsMet-IsDrawn fuel es p (inr (inr (yaw, turned, m))) =
        elim (Bool-cases (is_finite_entity js (found_peer js own p yaw))) [
          | inr wild ↦ inr (inr (yaw, turned, inl wild))
          | inl fine ↦
              let kept = mem-filter_of (is_finite_entity js) es m fine in
              inr (inr (yaw, turned, inr (found_peer js own p yaw, kept, refl)))
        ]

    peer-IsReported :
        (fuel : ℕ) (peer : VehiclePose js)
        → Memᴰ peer world.vehicles
        → HasAngle fuel peer
        → (es : List (LidarEntity js)) × (peer_entity js fuel own peer ≡ some es)
          × All IsReported es
          × IsMet fuel es peer
    peer-IsReported fuel peer m (yaw, turned) = elim (Bool-cases (is_other_vehicle js own peer)) [
      | inr other ↦ ([], unfold peer_entity in rw other refl, tt, inl (ground (arith, other)))
      | inl other ↦ elim (Bool-cases (is_in_view js (seen_at peer.x_m peer.y_m))) [
        | inr near ↦ ([], unfold peer_entity in rw (other, near) refl, tt, inr (inl near))
        | inl near ↦ (
          found_peer js own peer yaw ∷ [],
          unfold peer_entity in rw (other, near, turned) refl,
          (inl (peer, m, refl, ground (arith, other), ground (arith, other), (near, _, refl)), tt),
          inr (inr (yaw, turned, Memᴰ.head refl)),
        )
      ]
    ]

    peers-IsReported :
        (fuel : ℕ) (peers : List (VehiclePose js))
        → All (λ p. Memᴰ p world.vehicles) peers
        → All (HasAngle fuel) peers
        → (es : List (LidarEntity js)) × (peer_entities js fuel own peers ≡ some es)
          × All IsReported es
          × All (IsMet fuel es) peers
    unfolding peer_entities
    peers-IsReported fuel [] m h = ([], refl, tt, tt)
    peers-IsReported fuel (peer ∷ peers) (m, ms) (h, hs) =
        let (es, e, shown, met) = peer-IsReported fuel peer m h in
        let (others, f, rest, all_met) = peers-IsReported fuel peers ms hs in
        (
          es ++ others,
          rw (e, f, peer_entities) refl,
          All-append IsReported es others shown rest,
          (
            IsMet-IsMet fuel es (es ++ others) peer (λ x. mem-append_left es others) met,
            All-imp (IsMet fuel others) peers
                (λ p. IsMet-IsMet fuel others (es ++ others) p (λ x. mem-append_right es others))
                all_met,
          ),
        )

    objects-IsReported :
        (objects : List (LiveObject js))
        → All (λ o. Memᴰ o world.live_objects) objects
        → All IsReported (object_entities js own objects)
    unfolding object_entities
    objects-IsReported [] m = tt
    objects-IsReported (seen ∷ objects) (m, ms) =
        let rest = objects-IsReported objects ms in
        All-if IsReported (lt seen.confidence (decimal 5 1)) _ _ (λ _. rest)
          (λ sure.
            All-append IsReported _ _
              (All-if IsReported (is_in_view js (seen_at seen.x_m seen.y_m)) _ _
                (λ near. (inr (inl (seen, m, refl, sure, (near, _, refl))), tt)) (λ _. tt))
              rest)

    detections-IsReported :
        (detections : List (RadarObject js))
        → All (λ d. Memᴰ d world.radar_objects) detections
        → All IsReported (radar_entities js detections)
    unfolding radar_entities
    detections-IsReported [] m = tt
    detections-IsReported (d ∷ detections) (m, ms) =
        let rest = detections-IsReported detections ms in
        All-if IsReported (lt d.confidence (decimal 5 1) || lt (lidar_radius_m js) d.range_m) _ _
          (λ _. rest)
          (λ sure.
            (inr (inr (inl (d, m, refl, ground (arith, sure), ground (arith, sure), refl))), rest))

    obstacle_at-IsReported :
        (route : HaulRouteState js) (place : Option (Point2d js))
        → world.haul_route ≡ some route
        → route.obstacle_detected ≡ true
        → route.obstacle ≡ place
        → All IsReported (obstacle_at js own route place)
    unfolding obstacle_at
    obstacle_at-IsReported route none e met f = tt
    obstacle_at-IsReported route (some point) e met f =
        let place = seen_at point.x_m point.y_m in
        All-if IsReported (le (hypot place.x_m place.y_m) (lidar_radius_m js)) _ _
          (λ near. (inr (inr (inr (route, point, e, met, f, refl, (_, refl), near))), tt)) (λ _. tt)

    obstacle-IsReported :
        (haul_route : Option (HaulRouteState js))
        → world.haul_route ≡ haul_route
        → All IsReported (obstacle_entity js own haul_route)
    unfolding obstacle_entity
    obstacle-IsReported none e = tt
    obstacle-IsReported (some route) e =
        All-if IsReported route.obstacle_detected _ _
          (λ met. obstacle_at-IsReported route route.obstacle e met refl) (λ _. tt)

    -- Where adding and taking off a turn behave as on doubles, the heading of each vehicle of the
    -- world differs by at most one turn from the vehicle's own, and the fuel is at least 1: the
    -- entities of the scan picture are made; each has finite numbers only, and is a vehicle of the
    -- world with another id than the vehicle's own, an object or a detection, none of these
    -- reported with a confidence below 0.5, or the obstacle that the route reports as detected;
    -- what has a place in the world is drawn where the vehicle sees it and is not more than 80 m
    -- away, and a detection not at a range above 80 m; and every vehicle of the world with another
    -- id and no confidence below 0.5 has its entity there, unless it is out of view or a number of
    -- the entity is not finite.
    pub build_entities-IsReported :
        IsTurning js
        → (fuel : ℕ) → All (IsWithinTurn js own) world.vehicles
        → (es : List (LidarEntity js)) × (build_entities js (suc fuel) world own ≡ some es)
          × All (λ e. (is_finite_entity js e ≡ true) × IsReported e) es
          × All (IsDrawn (suc fuel) es) world.vehicles
    unfolding build_entities
    build_entities-IsReported laws fuel h =
        let (es, e, shown, met) =
          peers-IsReported (suc fuel) world.vehicles (All-of_mem _ _ (λ p m. m)) (
            All-imp (IsWithinTurn js own) world.vehicles
              (λ p (high, low). normalize_ends js laws fuel (relative_heading js own p) high low)
              h) in
        let objects = object_entities js own world.live_objects in
        let detections = radar_entities js world.radar_objects in
        let obstacles = obstacle_entity js own world.haul_route in
        let gathered = ((es ++ objects) ++ detections) ++ obstacles in
        (
          _,
          rw (e, build_entities) refl,
          All-pair _ _ _ (All-filter (is_finite_entity js) _) (
              All-filter_of IsReported (is_finite_entity js) _ (
                All-append IsReported _ _
                  (All-append IsReported _ _
                    (All-append IsReported es _ shown
                      (objects-IsReported world.live_objects (All-of_mem _ _ (λ o m. m))))
                    (detections-IsReported world.radar_objects (All-of_mem _ _ (λ d m. m))))
                  (obstacle-IsReported world.haul_route refl))),
          All-imp (IsMet (suc fuel) es) world.vehicles
              (λ p seen. IsMet-IsDrawn (suc fuel) gathered p (
                IsMet-IsMet (suc fuel) es gathered p
                  (λ x m.
                    mem-append_left ((es ++ objects) ++ detections) obstacles
                      (mem-append_left (es ++ objects) detections (mem-append_left es objects m)))
                  seen))
              met,
        )
