-- ===== src/Spatial/ForwardHazard/Laws.antt =====
-- forwardHazard.ts: a hazard that is shown has been seen, and not long ago.
use sih.Prelude.{String, ◌≡◌, ◌⊎◌, true, false, List, Option, none, some, ◌===◌, ◌⊕◌, Memᴰ}
use sih.Prelude.Runtime.{Runtime}
use sih.State.World.{VehiclePose, HaulRouteState}
use sih.Spatial.ForwardHazard.{
  HazardKind, truck, rock, ForwardHazard, Frame, is_simulated, encounter_hold_ms,
}

module _ (js : Runtime) where
  open js use {Num, sub, lt, le, decimal}

  abbrev pub IsOf : Frame js → HazardKind → String → Type 0
  IsOf f truck id =
      (peer : VehiclePose js) × Memᴰ peer f.world.vehicles
      × (id ≡ "truck:" ⊕ peer.vehicle_id)
      × ((peer.vehicle_id === f.vehicle.vehicle_id) ≡ false)
  IsOf f rock id =
      (route : HaulRouteState js) × (f.world.haul_route ≡ some route)
      × (route.obstacle_detected ≡ true)
      × (id ≡ "rock")

  -- The frame is of a simulated world, and has in it what the hazard warns of.
  abbrev pub IsSighting : Frame js → ForwardHazard js → Type 0
  IsSighting f h =
      (is_simulated f.world.mode ≡ true)
      × (h.last_seen_ms ≡ f.world.generated_at_ms)
      × IsOf f h.kind h.id

  abbrev IfAny : (ForwardHazard js → Type 0) → Option (ForwardHazard js) → Type 0
  IfAny P none = Unit
  IfAny P (some h) = P h

  -- A hazard that was seen in one of the frames.
  abbrev pub IsSeen : List (Frame js) → ForwardHazard js → Type 0
  IsSeen frames h = (f : Frame js) × Memᴰ f frames × IsSighting f h

  -- At a time a hazard is seen, or it was seen less than 8 s before.
  abbrev pub IsRecent : Num → ForwardHazard js → Type 0
  IsRecent now h =
      (h.last_seen_ms ≡ now) ⊎ (lt (sub now h.last_seen_ms) (encounter_hold_ms js) ≡ true)
