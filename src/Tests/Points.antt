-- ===== src/Tests/Points.antt =====
-- Measured points on the display (frontend/src/state/spatialPoints.ts).
use sih.Prelude.{
  ℕ, ◌≡◌, ◌≤◌, refl, String, true, List, [], ◌∷◌, none, some, All, length, filter, any, find,
  find_last, Memᴰ, ◌===◌, arith,
}
use sih.Prelude.Counting.{count_if}
use sih.Prelude.Sort.{sort, insert}
use sih.Tests.Engine.{plus, engine}
use sih.State.World.{SpatialPoint, SensorHealth, VehiclePose, simulated, healthy, stale}
use sih.State.RangeReadings.{available_sensors}
use sih.State.SpatialPoints.{
  spatial_point_cell_key, is_usable_spatial_point, within_range, is_displayable, put, keep_newest,
  fill_cells, push, fill_buckets, offer, offer_all, select, newest_points, selected_points,
  available_spatial_points,
}
use sih.State.SpatialPoints.Laws.{
  available_spatial_points_total, available_spatial_points_sound, available_spatial_points_single,
  available_spatial_points_complete,
}

abbrev point_at : String → ℕ → ℕ → SpatialPoint engine
point_at sensor x time = record {
  x_m = plus x;
  y_m = plus 1000;
  height_hint_m = plus 0;
  source_sensor_id = sensor;
  quality = plus 900;
  timestamp_ms = plus time;
}

-- The second point is a newer one of the first one's cell; the last one's sensor is silent.
abbrev new_front : SpatialPoint engine
new_front = point_at "front_scanner" 1001 6000000

abbrev points : List (SpatialPoint engine)
points =
    point_at "front_scanner" 1000 5000000
    ∷ new_front
    ∷ point_at "left_side" 2000 5500000
    ∷ point_at "right_side" 2000 5500000
    ∷ []

abbrev report : String → SensorHealth engine
report id = record {
  sensor_id = id;
  status = healthy;
  last_update_ms = plus 0;
  confidence = plus 1000;
  detail = none;
}

abbrev health : List (SensorHealth engine)
health =
    report "front_scanner"
    ∷ report "left_side"
    ∷ record (report "right_side") { status = stale }
    ∷ []

abbrev vehicle : VehiclePose engine
vehicle = record {
  haul = none;
  timestamp_ms = plus 0;
  vehicle_id = "TRUCK_01";
  x_m = plus 0;
  y_m = plus 0;
  heading_deg = plus 0;
  speed_mps = plus 0;
  position_confidence = plus 1000;
  mode = simulated;
}

abbrev shown : List (SpatialPoint engine)
shown = point_at "left_side" 2000 5500000 ∷ new_front ∷ []

showing : Unit {0}
unfolding spatial_point_cell_key is_usable_spatial_point within_range is_displayable put keep_newest
    fill_cells push fill_buckets offer offer_all select newest_points selected_points
    available_spatial_points available_sensors sort insert filter any find find_last count_if
showing = tt

points_shown :
    available_spatial_points engine points health true (plus 7000000) vehicle (plus 4000) none
    ≡ some shown
unfolding showing
points_shown = refl

available_spatial_points_total_example :
    (shown : List (SpatialPoint engine)) × (available_spatial_points engine points health true
        (plus 7000000)
        vehicle
        (plus 4000)
        none
      ≡ some shown)
    × (length shown ≤ 240)
available_spatial_points_total_example =
    available_spatial_points_total engine points health (plus 7000000) vehicle (plus 4000) none true

available_spatial_points_sound_example :
    All
      (λ p.
        (is_displayable engine health (plus 7000000) vehicle (plus 4000) none p ≡ true)
        × Memᴰ p points
        × (true ≡ true))
      shown
available_spatial_points_sound_example =
    available_spatial_points_sound engine points health (plus 7000000) vehicle (plus 4000) none true
      shown points_shown

available_spatial_points_single_example :
    count_if
      (λ p. spatial_point_cell_key engine p === spatial_point_cell_key engine new_front)
      shown
    ≤ 1
available_spatial_points_single_example =
    available_spatial_points_single engine points health (plus 7000000) vehicle (plus 4000) none
      true shown points_shown (spatial_point_cell_key engine new_front)

new_front_displayable :
    is_displayable engine health (plus 7000000) vehicle (plus 4000) none new_front ≡ true
unfolding showing
new_front_displayable = refl

available_spatial_points_complete_example :
    count_if
      (λ q. spatial_point_cell_key engine q === spatial_point_cell_key engine new_front)
      shown
    ≡ 1
available_spatial_points_complete_example =
    available_spatial_points_complete engine points health (plus 7000000) vehicle (plus 4000) none
      shown points_shown (omega arith) new_front (Memᴰ.tail (Memᴰ.head refl)) new_front_displayable
