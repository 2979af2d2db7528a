-- ===== src/State/Snapshot/SceneAgreement.antt =====
-- worldStateSnapshot.ts against types.ts: the tests of the camera, the scene and the radio.
use sih.Prelude.{◌≡◌, ◌||◌, arith}
use sih.Prelude.Runtime.{Runtime}
use sih.Prelude.Value.{Value}
use sih.State.Snapshot.Basics.{is_null, is_undefined, is_record, has_mode}
use sih.State.Snapshot.Scene.{
  has_camera_shape, has_corridor_shape, is_occupied_cell, has_occupancy_shape, has_simulation_shape,
  has_recording_shape, has_reference_map_shape,
}
use sih.State.Snapshot.V2x.{
  is_v2x_peer, is_v2x_infrastructure_node, is_v2x_advisory, is_optional_payload, is_v2x_message,
  has_v2x_shape,
}
use sih.State.Snapshot.Shape.{accepts, nullable, optional}
use sih.State.Snapshot.Shape.Interfaces
use sih.State.Snapshot.Shape.Laws.{and-split}
use sih.State.Snapshot.Shape.Agree.{bool_ext, or-ext}
use mathlib.Core.Path.{fun_ext}
use sih.State.Snapshot.Agreement.{point_2d-at, is_point_2d-eq, is_map_feature-eq}

module _ (js : Runtime) where
  open js use {Num}

  pub has_camera_shape-at :
      (v : Value Num) → has_camera_shape js v ≡ accepts js Interfaces.camera_state v
  unfolding has_camera_shape accepts Interfaces.camera_state has_mode Interfaces.visibility_metrics
  has_camera_shape-at v =
      bool_ext _ _ (λ h. let facts = simp and-split at h in simp and-split (assumption facts))
        (λ h. let facts = simp and-split at h in simp and-split (assumption facts))

  pub has_camera_shape-eq : has_camera_shape js ≡ accepts js Interfaces.camera_state
  has_camera_shape-eq = fun_ext has_camera_shape-at

  pub has_corridor_shape-at :
      (v : Value Num) → has_corridor_shape js v ≡ accepts js Interfaces.safe_corridor v
  unfolding has_corridor_shape accepts Interfaces.safe_corridor
  has_corridor_shape-at v =
      bool_ext _ _
        (λ h.
          let facts = simp (is_point_2d-eq js, is_map_feature-eq js, and-split) at h in
          simp and-split (assumption facts))
        (λ h.
          let facts = simp and-split at h in
          simp (is_point_2d-eq js, is_map_feature-eq js, and-split) (assumption facts))

  pub has_corridor_shape-eq : has_corridor_shape js ≡ accepts js Interfaces.safe_corridor
  has_corridor_shape-eq = fun_ext has_corridor_shape-at

  is_occupied_cell-at :
      (v : Value Num) → is_occupied_cell js v ≡ accepts js Interfaces.occupied_cell v
  unfolding is_occupied_cell accepts Interfaces.occupied_cell
  is_occupied_cell-at v =
      bool_ext _ _ (λ h. let facts = simp and-split at h in simp and-split (assumption facts))
        (λ h. let facts = simp and-split at h in simp and-split (assumption facts))

  pub is_occupied_cell-eq : is_occupied_cell js ≡ accepts js Interfaces.occupied_cell
  is_occupied_cell-eq = fun_ext is_occupied_cell-at

  pub has_occupancy_shape-at :
      (v : Value Num) → has_occupancy_shape js v ≡ accepts js Interfaces.occupancy v
  unfolding has_occupancy_shape accepts Interfaces.occupancy
  has_occupancy_shape-at v =
      bool_ext _ _
        (λ h.
          let facts = simp (point_2d-at js, is_occupied_cell-eq, and-split) at h in
          simp and-split (assumption facts))
        (λ h.
          let facts = simp and-split at h in
          simp (point_2d-at js, is_occupied_cell-eq, and-split) (assumption facts))

  pub has_occupancy_shape-eq : has_occupancy_shape js ≡ accepts js Interfaces.occupancy
  has_occupancy_shape-eq = fun_ext has_occupancy_shape-at

  pub has_simulation_shape-at :
      (v : Value Num) → has_simulation_shape js v ≡ accepts js Interfaces.simulation_state v
  unfolding has_simulation_shape accepts Interfaces.simulation_state
  has_simulation_shape-at v =
      bool_ext _ _ (λ h. let facts = simp and-split at h in simp and-split (assumption facts))
        (λ h. let facts = simp and-split at h in simp and-split (assumption facts))

  pub has_simulation_shape-eq : has_simulation_shape js ≡ accepts js Interfaces.simulation_state
  has_simulation_shape-eq = fun_ext has_simulation_shape-at

  pub has_recording_shape-at :
      (v : Value Num) → has_recording_shape js v ≡ accepts js Interfaces.recording_state v
  unfolding has_recording_shape accepts Interfaces.recording_state
  has_recording_shape-at v =
      bool_ext _ _ (λ h. let facts = simp and-split at h in simp and-split (assumption facts))
        (λ h. let facts = simp and-split at h in simp and-split (assumption facts))

  pub has_recording_shape-eq : has_recording_shape js ≡ accepts js Interfaces.recording_state
  has_recording_shape-eq = fun_ext has_recording_shape-at

  pub has_reference_map_shape-at :
      (v : Value Num)
      → has_reference_map_shape js v ≡ accepts js (nullable Interfaces.reference_map) v
  unfolding has_reference_map_shape accepts Interfaces.reference_map
  has_reference_map_shape-at v = or-ext (is_null v) _ _ (
      bool_ext _ _
        (λ h.
          let facts = simp (is_map_feature-eq js, and-split) at h in
          simp and-split (assumption facts))
        (λ h.
          let facts = simp and-split at h in
          simp (is_map_feature-eq js, and-split) (assumption facts)))

  pub has_reference_map_shape-eq :
      has_reference_map_shape js ≡ accepts js (nullable Interfaces.reference_map)
  has_reference_map_shape-eq = fun_ext has_reference_map_shape-at

  is_v2x_peer-at : (v : Value Num) → is_v2x_peer js v ≡ accepts js Interfaces.v2x_peer v
  unfolding is_v2x_peer accepts Interfaces.v2x_peer
  is_v2x_peer-at v =
      bool_ext _ _ (λ h. let facts = simp and-split at h in simp and-split (assumption facts))
        (λ h. let facts = simp and-split at h in simp and-split (assumption facts))

  pub is_v2x_peer-eq : is_v2x_peer js ≡ accepts js Interfaces.v2x_peer
  is_v2x_peer-eq = fun_ext is_v2x_peer-at

  is_v2x_infrastructure_node-at :
      (v : Value Num)
      → is_v2x_infrastructure_node js v ≡ accepts js Interfaces.v2x_infrastructure_node v
  unfolding is_v2x_infrastructure_node accepts Interfaces.v2x_infrastructure_node
  is_v2x_infrastructure_node-at v =
      bool_ext _ _ (λ h. let facts = simp and-split at h in simp and-split (assumption facts))
        (λ h. let facts = simp and-split at h in simp and-split (assumption facts))

  pub is_v2x_infrastructure_node-eq :
      is_v2x_infrastructure_node js ≡ accepts js Interfaces.v2x_infrastructure_node
  is_v2x_infrastructure_node-eq = fun_ext is_v2x_infrastructure_node-at

  is_v2x_advisory-at : (v : Value Num) → is_v2x_advisory js v ≡ accepts js Interfaces.v2i_advisory v
  unfolding is_v2x_advisory accepts Interfaces.v2i_advisory
  is_v2x_advisory-at v =
      bool_ext _ _ (λ h. let facts = simp and-split at h in simp and-split (assumption facts))
        (λ h. let facts = simp and-split at h in simp and-split (assumption facts))

  pub is_v2x_advisory-eq : is_v2x_advisory js ≡ accepts js Interfaces.v2i_advisory
  is_v2x_advisory-eq = fun_ext is_v2x_advisory-at

  is_optional_payload-at :
      (v : Value Num) → is_optional_payload js v ≡ ((is_undefined v || is_null v) || is_record v)
  unfolding is_optional_payload
  is_optional_payload-at v = ground arith

  is_v2x_message-at : (v : Value Num) → is_v2x_message js v ≡ accepts js Interfaces.v2x_message v
  unfolding is_v2x_message accepts Interfaces.v2x_message Interfaces.payload
  is_v2x_message-at v =
      bool_ext _ _
        (λ h.
          let facts = simp (is_optional_payload-at, and-split) at h in
          simp and-split (assumption facts))
        (λ h.
          let facts = simp and-split at h in
          simp (is_optional_payload-at, and-split) (assumption facts))

  pub is_v2x_message-eq : is_v2x_message js ≡ accepts js Interfaces.v2x_message
  is_v2x_message-eq = fun_ext is_v2x_message-at

  pub has_v2x_shape-at :
      (v : Value Num) → has_v2x_shape js v ≡ accepts js (optional Interfaces.v2x_state) v
  unfolding has_v2x_shape accepts Interfaces.v2x_state
  has_v2x_shape-at v = or-ext (is_undefined v) _ _ (
      bool_ext _ _
        (λ h.
          let facts =
            simp
              (
                is_v2x_peer-eq, is_v2x_infrastructure_node-eq, is_v2x_advisory-eq,
                is_v2x_message-eq, and-split,
              )
              at h in
          simp and-split (assumption facts))
        (λ h.
          let facts = simp and-split at h in
          simp
            (
              is_v2x_peer-eq, is_v2x_infrastructure_node-eq, is_v2x_advisory-eq, is_v2x_message-eq,
              and-split,
            )
            (assumption facts)))

  pub has_v2x_shape-eq : has_v2x_shape js ≡ accepts js (optional Interfaces.v2x_state)
  has_v2x_shape-eq = fun_ext has_v2x_shape-at
