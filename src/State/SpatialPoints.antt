-- ===== src/State/SpatialPoints.antt =====
-- frontend/src/state/spatialPoints.ts: which measured points are drawn.
-- A `Map` is a list of its entries in the order in which their keys came.
pub mod Cells
pub mod Rounds
pub mod Selection
pub mod Laws
use sih.Prelude.{
  ℕ, zero, suc, String, Bool, true, false, not, ◌&&◌, List, [], ◌∷◌, ◌++◌, map, Option, none, some,
  if◌then◌else◌, filter, any, find, find_last, get_elem?, length, ltb, ◌===◌, ◌⊕◌,
}
use sih.Prelude.Runtime.{Runtime}
use sih.Prelude.Sort.{sort}
use sih.State.World.{SpatialPoint, SensorHealth, VehiclePose}
use sih.State.RangeReadings.{available_sensors}
use sih.Settings.Sensors.{SensorDisplaySetting}

abbrev pub max_rendered_points : ℕ
max_rendered_points = 240

module _ (js : Runtime) where
  open js use {
    Num, decimal, is_finite, lt, le, add, sub, mul, div, round, sin, cos, hypot, pi, show,
  }

  abbrev pub max_point_age_ms : Num
  max_point_age_ms = decimal 12000 0

  abbrev pub display_cell_m : Num
  display_cell_m = decimal 4 2

  unfoldable pub spatial_point_cell_key : SpatialPoint js → String
  spatial_point_cell_key point =
      point.source_sensor_id
      ⊕ ":"
      ⊕ show (round (div point.x_m display_cell_m))
      ⊕ ":"
      ⊕ show (round (div point.y_m display_cell_m))

  unfoldable pub is_usable_spatial_point : SpatialPoint js → Num → Bool
  is_usable_spatial_point point generated_at_ms =
      let age_ms = sub generated_at_ms point.timestamp_ms in
      is_finite point.x_m
      && is_finite point.y_m
      && le (decimal 5 1) point.quality
      && le (decimal 0 0) age_ms
      && le age_ms max_point_age_ms

  -- Lines 52 to 61. `none` stands for settings that are not given.
  unfoldable pub within_range :
      VehiclePose js → Num → Option (List (SensorDisplaySetting js)) → SpatialPoint js → Bool
  unfolding find_last
  within_range vehicle display_radius_m sensors point =
      let heading = div (mul vehicle.heading_deg pi) (decimal 180 0) in
      let cosine = cos heading in
      let sine = sin heading in
      let dx = sub point.x_m vehicle.x_m in
      let dy = sub point.y_m vehicle.y_m in
      elim sensors [
        | none ↦ le (hypot dx dy) display_radius_m
        | some settings ↦ elim (find_last (λ s. s.sensor_id === point.source_sensor_id) settings) [
          | none ↦ false
          | some sensor ↦
              le
                (hypot (sub (sub (mul dx cosine) (mul dy sine)) sensor.display_pose.x_m)
                  (sub (add (mul dx sine) (mul dy cosine)) sensor.display_pose.y_m))
                sensor.visual_range_m
        ]
      ]

  -- The test of lines 64 to 69.
  unfoldable pub is_displayable :
      List (SensorHealth js)
      → Num
      → VehiclePose js
      → Num
      → Option (List (SensorDisplaySetting js))
      → SpatialPoint js
      → Bool
  unfolding any available_sensors is_usable_spatial_point within_range
  is_displayable sensor_health generated_at_ms vehicle display_radius_m sensors point =
      any (λ id. id === point.source_sensor_id) (available_sensors js sensor_health)
      && is_usable_spatial_point point generated_at_ms
      && within_range vehicle display_radius_m sensors point

  -- An entry of `cells`.
  pub record Cell : Type 0 where
    pub key : String
    pub point : SpatialPoint js

  -- `cells.set(key, point)`
  unfoldable pub put : String → SpatialPoint js → List Cell → List Cell
  put key point [] = record { key = key; point = point } ∷ []
  put key point (c ∷ cells) =
      if c.key === key then record { key = key; point = point } ∷ cells else c ∷ put key point cells

  unfoldable pub keep_newest : SpatialPoint js → List Cell → List Cell
  unfolding find put spatial_point_cell_key
  keep_newest point cells =
      let key = spatial_point_cell_key point in
      elim (find (λ c. c.key === key) cells) [
        | none ↦ put key point cells
        | some previous ↦
            if le previous.point.timestamp_ms point.timestamp_ms then put key point cells else cells
      ]

  -- The loop of lines 73 to 77.
  unfoldable pub fill_cells : List (SpatialPoint js) → List Cell → List Cell
  unfolding keep_newest
  fill_cells [] cells = cells
  fill_cells (p ∷ points) cells = fill_cells points (keep_newest p cells)

  -- An entry of `bySensor`.
  pub record Bucket : Type 0 where
    pub sensor_id : String
    pub points : List (SpatialPoint js)

  unfoldable pub push : SpatialPoint js → List Bucket → List Bucket
  push point [] = record { sensor_id = point.source_sensor_id; points = point ∷ [] } ∷ []
  push point (b ∷ buckets) =
      if b.sensor_id === point.source_sensor_id
      then record b { points = b.points ++ (point ∷ []) } ∷ buckets
      else b ∷ push point buckets

  -- The loop of lines 79 to 83.
  unfoldable pub fill_buckets : List (SpatialPoint js) → List Bucket → List Bucket
  unfolding push
  fill_buckets [] buckets = buckets
  fill_buckets (p ∷ points) buckets = fill_buckets points (push p buckets)

  -- Lines 88 to 91, with `selected` and `found`.
  unfoldable pub offer : ℕ → Bucket → List (SpatialPoint js) × Bool → List (SpatialPoint js) × Bool
  offer index bucket (selected, found) = elim (get_elem? bucket.points index) [
    | none ↦ (selected, found)
    | some point ↦
        if ltb (length selected) max_rendered_points
        then (selected ++ (point ∷ []), true)
        else (selected, found)
  ]

  unfoldable pub offer_all :
      ℕ → List Bucket → List (SpatialPoint js) × Bool → List (SpatialPoint js) × Bool
  unfolding offer
  offer_all index [] state = state
  offer_all index (b ∷ buckets) state = offer_all index buckets (offer index b state)

  -- The loop of lines 85 to 94, on fuel; `none` when the fuel runs out.
  unfoldable pub select :
      ℕ → ℕ → List Bucket → List (SpatialPoint js) → Option (List (SpatialPoint js))
  unfolding offer_all
  select zero index buckets selected = none
  select (suc fuel) index buckets selected = elim (ltb (length selected) max_rendered_points) [
    | false ↦ some selected
    | true ↦
        let (taken, found) = offer_all index buckets (selected, false) in
        elim found [ false ↦ some taken | true ↦ select fuel (suc index) buckets taken ]
  ]

  abbrev pub is_older : SpatialPoint js → SpatialPoint js → Bool
  is_older a b = lt (decimal 0 0) (sub b.timestamp_ms a.timestamp_ms)

  abbrev pub is_newer : SpatialPoint js → SpatialPoint js → Bool
  is_newer a b = lt (decimal 0 0) (sub a.timestamp_ms b.timestamp_ms)

  -- `[...cells.values()]` of the points that may be shown.
  unfoldable pub newest_points : List (SpatialPoint js) → List (SpatialPoint js)
  unfolding fill_cells
  newest_points usable = map (λ c. c.point) (fill_cells usable [])

  unfoldable pub selected_points : List (SpatialPoint js) → Option (List (SpatialPoint js))
  unfolding fill_buckets select sort newest_points
  selected_points usable =
      select (suc max_rendered_points) 0 (fill_buckets (sort is_older (newest_points usable)) []) []

  unfoldable pub available_spatial_points :
      List (SpatialPoint js)
      → List (SensorHealth js)
      → Bool
      → Num
      → VehiclePose js
      → Num
      → Option (List (SensorDisplaySetting js))
      → Option (List (SpatialPoint js))
  unfolding filter is_displayable selected_points sort
  available_spatial_points points health connected generated_at_ms vehicle display_radius_m
        sensors =
      if not connected
      then some []
      else let usable =
          filter (is_displayable health generated_at_ms vehicle display_radius_m sensors) points in
        elim (selected_points usable) [
          | none ↦ none
          | some selected ↦ some (sort is_newer selected)
        ]
