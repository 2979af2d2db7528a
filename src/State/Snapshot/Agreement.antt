-- ===== src/State/Snapshot/Agreement.antt =====
-- worldStateSnapshot.ts against types.ts: the tests of vehicles and sensors accept exactly the
-- values that have the shape of the interface.
use sih.Prelude.{String, ◌≡◌, refl, Bool, true, List, [], ◌∷◌, arith}
use sih.Prelude.Runtime.{Runtime}
use sih.Prelude.Value.{Value, object, string}
use sih.State.Snapshot.Basics.{
  is_record, is_string, is_null, is_text, is_one_of, has_values, has_mode, is_point_2d,
  is_map_feature, is_primitive_properties,
}
use sih.State.Snapshot.Sensors.{
  is_vehicle, is_gps_telemetry, is_load_telemetry, is_vehicle_telemetry, is_range, is_sensor_health,
  has_motion_shape, has_environment_shape, has_emergency_shape, is_radar_object, is_live_object,
  is_spatial_point, is_alert,
}
use sih.State.Snapshot.Shape.{accepts, both, gps_report, nullable}
use sih.State.Snapshot.Shape.Interfaces
use sih.State.Snapshot.Shape.Laws.{and-split}
use sih.State.Snapshot.Shape.Agree.{bool_ext, or-ext}
use mathlib.Core.Path.{fun_ext}

module _ {N : Type 0} where
  is_record-has_values :
      (p : Value N → Bool) (v : Value N) → has_values p v ≡ true → is_record v ≡ true
  unfolding has_values is_record
  is_record-has_values p (object fs) h = refl
  is_record-has_values p _ h = cc

  is_string-is_one_of :
      (set : List String) (v : Value N) → is_one_of set v ≡ true → is_string v ≡ true
  unfolding is_one_of is_string
  is_string-is_one_of set (string s) h = refl
  is_string-is_one_of set _ h = cc

  pub is_text-eq : (t : String) (v : Value N) → is_text t v ≡ is_one_of (t ∷ []) v
  unfolding is_text is_one_of
  is_text-eq t (string s) = ground arith
  is_text-eq t _ = refl

module _ (js : Runtime) where
  open js use {Num}

  pub point_2d-at : (v : Value Num) → is_point_2d js v ≡ accepts js Interfaces.point_2d v
  unfolding is_point_2d accepts Interfaces.point_2d has_mode
  point_2d-at v =
      bool_ext _ _ (λ h. let facts = simp and-split at h in simp and-split (assumption facts))
        (λ h. let facts = simp and-split at h in simp and-split (assumption facts))

  pub is_point_2d-eq : is_point_2d js ≡ accepts js Interfaces.point_2d
  is_point_2d-eq = fun_ext point_2d-at

  is_vehicle-at : (v : Value Num) → is_vehicle js v ≡ accepts js Interfaces.vehicle_pose v
  unfolding is_vehicle accepts Interfaces.vehicle_pose has_mode
  is_vehicle-at v =
      bool_ext _ _ (λ h. let facts = simp and-split at h in simp and-split (assumption facts))
        (λ h. let facts = simp and-split at h in simp and-split (assumption facts))

  pub is_vehicle-eq : is_vehicle js ≡ accepts js Interfaces.vehicle_pose
  is_vehicle-eq = fun_ext is_vehicle-at

  is_range-at : (v : Value Num) → is_range js v ≡ accepts js Interfaces.range_reading v
  unfolding is_range accepts Interfaces.range_reading has_mode
  is_range-at v =
      bool_ext _ _ (λ h. let facts = simp and-split at h in simp and-split (assumption facts))
        (λ h. let facts = simp and-split at h in simp and-split (assumption facts))

  pub is_range-eq : is_range js ≡ accepts js Interfaces.range_reading
  is_range-eq = fun_ext is_range-at

  is_sensor_health-at :
      (v : Value Num) → is_sensor_health js v ≡ accepts js Interfaces.sensor_health v
  unfolding is_sensor_health accepts Interfaces.sensor_health has_mode
  is_sensor_health-at v =
      bool_ext _ _ (λ h. let facts = simp and-split at h in simp and-split (assumption facts))
        (λ h. let facts = simp and-split at h in simp and-split (assumption facts))

  pub is_sensor_health-eq : is_sensor_health js ≡ accepts js Interfaces.sensor_health
  is_sensor_health-eq = fun_ext is_sensor_health-at

  pub has_environment_shape-at :
      (v : Value Num) → has_environment_shape js v ≡ accepts js Interfaces.environment_state v
  unfolding has_environment_shape accepts Interfaces.environment_state has_mode
  has_environment_shape-at v =
      bool_ext _ _ (λ h. let facts = simp and-split at h in simp and-split (assumption facts))
        (λ h. let facts = simp and-split at h in simp and-split (assumption facts))

  pub has_environment_shape-eq : has_environment_shape js ≡ accepts js Interfaces.environment_state
  has_environment_shape-eq = fun_ext has_environment_shape-at

  pub has_emergency_shape-at :
      (v : Value Num) → has_emergency_shape js v ≡ accepts js Interfaces.emergency_state v
  unfolding has_emergency_shape accepts Interfaces.emergency_state has_mode
  has_emergency_shape-at v =
      bool_ext _ _ (λ h. let facts = simp and-split at h in simp and-split (assumption facts))
        (λ h. let facts = simp and-split at h in simp and-split (assumption facts))

  pub has_emergency_shape-eq : has_emergency_shape js ≡ accepts js Interfaces.emergency_state
  has_emergency_shape-eq = fun_ext has_emergency_shape-at

  is_radar_object-at : (v : Value Num) → is_radar_object js v ≡ accepts js Interfaces.radar_object v
  unfolding is_radar_object accepts Interfaces.radar_object has_mode
  is_radar_object-at v =
      bool_ext _ _ (λ h. let facts = simp and-split at h in simp and-split (assumption facts))
        (λ h. let facts = simp and-split at h in simp and-split (assumption facts))

  pub is_radar_object-eq : is_radar_object js ≡ accepts js Interfaces.radar_object
  is_radar_object-eq = fun_ext is_radar_object-at

  is_live_object-at : (v : Value Num) → is_live_object js v ≡ accepts js Interfaces.live_object v
  unfolding is_live_object accepts Interfaces.live_object has_mode
  is_live_object-at v =
      bool_ext _ _ (λ h. let facts = simp and-split at h in simp and-split (assumption facts))
        (λ h. let facts = simp and-split at h in simp and-split (assumption facts))

  pub is_live_object-eq : is_live_object js ≡ accepts js Interfaces.live_object
  is_live_object-eq = fun_ext is_live_object-at

  is_spatial_point-at :
      (v : Value Num) → is_spatial_point js v ≡ accepts js Interfaces.spatial_point v
  unfolding is_spatial_point accepts Interfaces.spatial_point has_mode
  is_spatial_point-at v =
      bool_ext _ _ (λ h. let facts = simp and-split at h in simp and-split (assumption facts))
        (λ h. let facts = simp and-split at h in simp and-split (assumption facts))

  pub is_spatial_point-eq : is_spatial_point js ≡ accepts js Interfaces.spatial_point
  is_spatial_point-eq = fun_ext is_spatial_point-at

  is_alert-at : (v : Value Num) → is_alert js v ≡ accepts js Interfaces.alert_event v
  unfolding is_alert accepts Interfaces.alert_event has_mode
  is_alert-at v =
      bool_ext _ _ (λ h. let facts = simp and-split at h in simp and-split (assumption facts))
        (λ h. let facts = simp and-split at h in simp and-split (assumption facts))

  pub is_alert-eq : is_alert js ≡ accepts js Interfaces.alert_event
  is_alert-eq = fun_ext is_alert-at

  is_gps_telemetry-at :
      (v : Value Num)
      → is_gps_telemetry js v ≡ accepts js (both Interfaces.gps_telemetry gps_report) v
  unfolding is_gps_telemetry accepts Interfaces.gps_telemetry
  is_gps_telemetry-at v =
      bool_ext _ _ (λ h. let facts = simp and-split at h in simp and-split (assumption facts))
        (λ h. let facts = simp and-split at h in simp and-split (assumption facts))

  pub is_gps_telemetry-eq :
      is_gps_telemetry js ≡ accepts js (both Interfaces.gps_telemetry gps_report)
  is_gps_telemetry-eq = fun_ext is_gps_telemetry-at

  is_load_telemetry-at :
      (v : Value Num) → is_load_telemetry js v ≡ accepts js (nullable Interfaces.load_telemetry) v
  unfolding is_load_telemetry accepts Interfaces.load_telemetry
  is_load_telemetry-at v = or-ext (is_null v) _ _ (
      bool_ext _ _ (λ h. let facts = simp and-split at h in simp and-split (assumption facts))
        (λ h. let facts = simp and-split at h in simp and-split (assumption facts)))

  pub is_load_telemetry-eq : is_load_telemetry js ≡ accepts js (nullable Interfaces.load_telemetry)
  is_load_telemetry-eq = fun_ext is_load_telemetry-at

  is_vehicle_telemetry-at :
      (v : Value Num) → is_vehicle_telemetry js v ≡ accepts js Interfaces.vehicle_telemetry v
  unfolding is_vehicle_telemetry accepts Interfaces.vehicle_telemetry
  is_vehicle_telemetry-at v =
      bool_ext _ _
        (λ h.
          let facts =
            simp (is_gps_telemetry-at, is_load_telemetry-at, is_text-eq, and-split) at h in
          simp and-split (assumption facts))
        (λ h.
          let facts = simp and-split at h in
          simp (is_gps_telemetry-at, is_load_telemetry-at, is_text-eq, and-split)
            (assumption facts))

  pub is_vehicle_telemetry-eq : is_vehicle_telemetry js ≡ accepts js Interfaces.vehicle_telemetry
  is_vehicle_telemetry-eq = fun_ext is_vehicle_telemetry-at

  pub has_motion_shape-at :
      (v : Value Num) → has_motion_shape js v ≡ accepts js Interfaces.motion_state v
  unfolding has_motion_shape accepts has_mode Interfaces.motion_state
  has_motion_shape-at v =
      bool_ext _ _ (λ h. let facts = simp and-split at h in simp and-split (assumption facts))
        (λ h.
          let facts = simp and-split at h in
          let holder = is_record-has_values _ _ facts.1.1.1.1.1.1.1.1.1.1.0 in
          simp and-split (assumption (facts, holder)))

  pub has_motion_shape-eq : has_motion_shape js ≡ accepts js Interfaces.motion_state
  has_motion_shape-eq = fun_ext has_motion_shape-at

  is_map_feature-at : (v : Value Num) → is_map_feature js v ≡ accepts js Interfaces.map_feature v
  unfolding is_map_feature accepts is_primitive_properties Interfaces.map_feature
  is_map_feature-at v =
      bool_ext _ _
        (λ h.
          let facts = simp (is_point_2d-eq, and-split) at h in simp and-split (assumption facts))
        (λ h.
          let facts = simp and-split at h in
          let kind = is_string-is_one_of _ _ facts.1.1.0 in
          let form = is_string-is_one_of _ _ facts.1.1.1.0 in
          simp (is_point_2d-eq, and-split) (assumption (facts, kind, form)))

  pub is_map_feature-eq : is_map_feature js ≡ accepts js Interfaces.map_feature
  is_map_feature-eq = fun_ext is_map_feature-at
