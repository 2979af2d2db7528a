-- ===== src/Supervisor/ViewModel/Vehicles.antt =====
-- supervisorViewModel.ts, lines 165 to 274: the vehicles of the view, from the poses, the radio's
-- peers and the samples of the telemetry that no pose or peer accounts for.
use sih.Prelude.{
  String, Bool, true, false, not, ◌&&◌, List, [], ◌∷◌, ◌++◌, map, Option, none, some, if◌then◌else◌,
  ltb, ◌===◌, get_or, is_some, find_last, filter, any,
}
use sih.Prelude.Runtime.{Runtime, Sign, before, after}
use sih.Prelude.Sort.{sort}
use mathlib.Core.Option
use sih.State.World.{
  DataMode, simulated, VisibilityState, low, very_low, V2xPeerNode, VehiclePose, WorldState,
  TelemetrySample,
}
use sih.State.Selectors.{SensorSummary, tof_sensor_health_summary}
use sih.Supervisor.ViewModel.{
  SupervisorVehicle, normalized_emergency_state, vehicle_tone, same_tone, tone_rank, lost, unknown,
}

abbrev pub is_simulated_mode : DataMode → Bool
is_simulated_mode simulated = true
is_simulated_mode _ = false

-- `=== "LOW" || === "VERY_LOW"`
abbrev pub is_poor : VisibilityState → Bool
is_poor low = true
is_poor very_low = true
is_poor _ = false

abbrev pub is_after : Sign → Bool
is_after after = true
is_after _ = false

-- `?? []`
abbrev pub list_or {ℓ} : {A : Type ℓ} → Option (List A) → List A
list_or none = []
list_or (some xs) = xs

module _ (js : Runtime) where
  open js use {Num, decimal, lt, sub, max_num, locale_compare}

  -- `Math.max(a, ...rest)`
  abbrev pub max_of : Num → List Num → Num
  max_of a [] = a
  max_of a (n ∷ rest) = max_of (max_num a n) rest

  unfoldable pub reference_time : WorldState js → Num
  reference_time world = max_of world.generated_at_ms (
      get_or (Option.map (λ v. v.timestamp_ms) world.v2x) (decimal 0 0)
      ∷ map (λ v. v.timestamp_ms) world.vehicles)

  unfoldable pub peers : WorldState js → List (V2xPeerNode js)
  peers world = list_or (Option.map (λ v. v.active_peers) world.v2x)

  abbrev pub sensors_degraded : SensorSummary → Bool
  sensors_degraded summary = ltb summary.healthy summary.total

  -- Lines 180 to 218, for a vehicle whose peer is `peer`.
  unfoldable pub pose_vehicle :
      WorldState js → Option (V2xPeerNode js) → VehiclePose js → SupervisorVehicle js
  unfolding vehicle_tone normalized_emergency_state reference_time tof_sensor_health_summary
  pose_vehicle world peer vehicle =
      let is_primary' = vehicle.vehicle_id === world.primary_vehicle_id in
      let emergency = normalized_emergency_state js (
        if is_primary'
        then some world.emergency.state
        else Option.map (λ p. p.emergency_state) peer) in
      let link = Option.map (λ p. p.link_status) peer in
      let updated =
        max_num vehicle.timestamp_ms
          (get_or (Option.map (λ p. p.last_seen_ms) peer) (decimal 0 0)) in
      record {
        haul = vehicle.haul;
        vehicle_id = vehicle.vehicle_id;
        is_primary = is_primary';
        is_simulated = is_simulated_mode vehicle.mode;
        source_label =
            if is_primary'
            then "Primary telemetry"
            else if is_some peer
            then "Vehicle + V2X"
            else "Vehicle telemetry";
        has_position = lt (decimal 0 0) vehicle.position_confidence;
        x_m = vehicle.x_m;
        y_m = vehicle.y_m;
        heading_deg = vehicle.heading_deg;
        speed_mps = vehicle.speed_mps;
        position_confidence = some vehicle.position_confidence;
        emergency_state = emergency;
        link_status = link;
        distance_m = Option.map (λ p. p.distance_m) peer;
        last_update_ms = updated;
        age_ms = max_num (decimal 0 0) (sub (reference_time world) updated);
        tone =
            vehicle_tone emergency link is_primary'
              (sensors_degraded (tof_sensor_health_summary js world.sensor_health))
              (is_poor world.environment.visibility_state);
      }

  -- `peersById.get(id)`: of peers with the same id, the last one.
  unfoldable pub peer_of : WorldState js → String → Option (V2xPeerNode js)
  unfolding find_last peers
  peer_of world id = find_last (λ p. p.vehicle_id === id) (peers world)

  unfoldable pub pose_vehicles : WorldState js → List (SupervisorVehicle js)
  unfolding pose_vehicle peer_of
  pose_vehicles world = map (λ v. pose_vehicle world (peer_of world v.vehicle_id) v) world.vehicles

  -- Lines 224 to 241.
  unfoldable pub peer_vehicle : WorldState js → V2xPeerNode js → SupervisorVehicle js
  unfolding vehicle_tone normalized_emergency_state reference_time
  peer_vehicle world peer =
      let emergency = normalized_emergency_state js (some peer.emergency_state) in
      record {
        haul = none;
        vehicle_id = peer.vehicle_id;
        is_primary = false;
        is_simulated = true;
        source_label = "V2X simulation";
        has_position = true;
        x_m = peer.x_m;
        y_m = peer.y_m;
        heading_deg = peer.heading_deg;
        speed_mps = peer.speed_mps;
        position_confidence = none;
        emergency_state = emergency;
        link_status = some peer.link_status;
        distance_m = some peer.distance_m;
        last_update_ms = peer.last_seen_ms;
        age_ms = max_num (decimal 0 0) (sub (reference_time world) peer.last_seen_ms);
        tone = vehicle_tone emergency (some peer.link_status) false false false;
      }

  -- Lines 248 to 265.
  unfoldable pub sample_vehicle : WorldState js → TelemetrySample js → SupervisorVehicle js
  unfolding reference_time
  sample_vehicle world sample = record {
    haul = none;
    vehicle_id = sample.vehicle_id;
    is_primary = false;
    is_simulated = false;
    source_label = "Direct Wi-Fi telemetry";
    has_position = false;
    x_m = decimal 0 0;
    y_m = decimal 0 0;
    heading_deg = decimal 0 0;
    speed_mps = get_or sample.gps_speed_mps (decimal 0 0);
    position_confidence = none;
    emergency_state = none;
    link_status = none;
    distance_m = none;
    last_update_ms = sample.received_at_ms;
    age_ms = max_num (decimal 0 0) (sub (reference_time world) sample.received_at_ms);
    tone = if sample.online then unknown else lost;
  }

  abbrev pub has_id : String → List (SupervisorVehicle js) → Bool
  has_id id vehicles = any (λ v. v.vehicle_id === id) vehicles

  unfoldable pub with_peers :
      WorldState js → List (SupervisorVehicle js) → List (SupervisorVehicle js)
  unfolding filter any peers peer_vehicle
  with_peers world canonical =
      canonical
      ++ map (peer_vehicle world) (filter (λ p. not (has_id p.vehicle_id canonical)) (peers world))

  -- Lines 245 to 267: each sample whose id is not known yet is added.
  unfoldable pub with_samples :
      WorldState js
      → List (TelemetrySample js)
      → List (SupervisorVehicle js)
      → List (SupervisorVehicle js)
  unfolding any sample_vehicle
  with_samples world [] vehicles = vehicles
  with_samples world (sample ∷ samples) vehicles = with_samples world samples (
      if has_id sample.vehicle_id vehicles
      then vehicles
      else vehicles ++ (sample_vehicle world sample ∷ []))

  -- The comparison of line 269; the difference of two ranks is compared with 0.
  unfoldable pub compare_vehicles : SupervisorVehicle js → SupervisorVehicle js → Sign
  compare_vehicles left right =
      if not (same_tone left.tone right.tone)
      then (if ltb (tone_rank right.tone) (tone_rank left.tone) then before else after)
      else if left.is_primary && not right.is_primary
      then before
      else if right.is_primary && not left.is_primary
      then after
      else locale_compare left.vehicle_id right.vehicle_id

  abbrev pub vehicle_after : SupervisorVehicle js → SupervisorVehicle js → Bool
  vehicle_after left right = is_after (compare_vehicles left right)

  -- Every vehicle, in the order in which they were added.
  unfoldable pub gathered_vehicles : WorldState js → List (SupervisorVehicle js)
  unfolding pose_vehicles with_peers with_samples
  gathered_vehicles world =
      with_samples world (list_or world.vehicle_telemetry) (with_peers world (pose_vehicles world))

  unfoldable pub supervisor_vehicles : WorldState js → List (SupervisorVehicle js)
  unfolding sort gathered_vehicles compare_vehicles
  supervisor_vehicles world = sort vehicle_after (gathered_vehicles world)
