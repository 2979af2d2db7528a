-- ===== src/State/SpatialPoints/Laws.antt =====
-- spatialPoints.ts: what is drawn of the measured points.
use sih.Prelude.{
  ◌+◌, ◌≤◌, ◌<◌, ◌≡◌, refl, sym, ◌∙◌, subst, String, Bool, true, false, List, [], ◌∷◌, Option, some,
  if◌then◌else◌, ◌===◌, length, filter, arith, Bool-cases, inl, inr, All, All-append, All-imp,
  All-pair, All-filter, All-filter_of, All-of_mem, mem-filter_of, Memᴰ,
}
use mathlib.Core.Option.{some-injective}
use sih.Prelude.Counting.{count_if, count_if-append}
use sih.Prelude.Sort.{sort, count_if-sort, length-sort, All-sort}
use sih.Prelude.Runtime.{Runtime}
use sih.State.World.{SpatialPoint, SensorHealth, VehiclePose}
use sih.Settings.Sensors.{SensorDisplaySetting}
use sih.State.SpatialPoints.{
  Bucket, push, fill_buckets, max_rendered_points, newest_points, selected_points, is_older,
  is_newer, is_displayable, available_spatial_points, spatial_point_cell_key,
}
use sih.State.SpatialPoints.Cells.{
  is_in, newest_points_single, newest_points_cover, All-newest_points,
}
use sih.State.SpatialPoints.Rounds.{whole}
use sih.State.SpatialPoints.Selection.{IsUnderWay, begin-IsUnderWay, select-IsSelection, select-All}

module _ (js : Runtime) where
  open js use {Num}

  whole-push :
      (p : SpatialPoint js → Bool) (x : SpatialPoint js) (buckets : List (Bucket js))
      → whole js p (push js x buckets) ≡ whole js p buckets + (if p x then 1 else 0)
  unfolding push count_if
  whole-push p x [] = omega arith
  whole-push p x (b ∷ buckets) = elim (Bool-cases (b.sensor_id === x.source_sensor_id)) [
    | inl e ↦ rw (e, count_if-append p b.points (x ∷ [])) (omega arith)
    | inr e ↦ rw e (omega (arith, whole-push p x buckets))
  ]

  whole-fill_buckets :
      (p : SpatialPoint js → Bool) (points : List (SpatialPoint js)) (buckets : List (Bucket js))
      → whole js p (fill_buckets js points buckets) ≡ whole js p buckets + count_if p points
  unfolding fill_buckets count_if
  whole-fill_buckets p [] buckets = omega arith
  whole-fill_buckets p (x ∷ points) buckets =
      omega (arith, whole-fill_buckets p points (push js x buckets), whole-push p x buckets)

  All-push {κ} :
      (P : SpatialPoint js → Type κ) (x : SpatialPoint js) (buckets : List (Bucket js))
      → P x
      → All (λ b. All P b.points) buckets
      → All (λ b. All P b.points) (push js x buckets)
  unfolding push
  All-push P x [] q h = ((q, tt), tt)
  All-push P x (b ∷ buckets) q (k, h) = elim (Bool-cases (b.sensor_id === x.source_sensor_id)) [
    | inl e ↦ rw e (All-append P b.points (x ∷ []) k (q, tt), h)
    | inr e ↦ rw e (k, All-push P x buckets q h)
  ]

  All-fill_buckets {κ} :
      (P : SpatialPoint js → Type κ) (points : List (SpatialPoint js)) (buckets : List (Bucket js))
      → All P points
      → All (λ b. All P b.points) buckets
      → All (λ b. All P b.points) (fill_buckets js points buckets)
  unfolding fill_buckets
  All-fill_buckets P [] buckets h k = k
  All-fill_buckets P (x ∷ points) buckets (q, h) k =
      All-fill_buckets P points (push js x buckets) h (All-push P x buckets q k)

  -- What the display shows of the points that may be shown.
  record IsShownOf (usable shown : List (SpatialPoint js)) : Type 0 where
    most : (p : SpatialPoint js → Bool) → count_if p shown ≤ count_if p (newest_points js usable)
    exact :
        (p : SpatialPoint js → Bool)
        → length shown < max_rendered_points
        → count_if p shown ≡ count_if p (newest_points js usable)
    room : length shown ≤ max_rendered_points

  selected_points-IsShownOf :
      (usable : List (SpatialPoint js))
      → (out : List (SpatialPoint js)) × (selected_points js usable ≡ some out)
        × IsShownOf usable (sort (is_newer js) out)
  unfolding selected_points
  selected_points-IsShownOf usable =
      let ordered = sort (is_older js) (newest_points js usable) in
      let buckets = fill_buckets js ordered [] in
      let start : IsUnderWay js 0 buckets [] = begin-IsUnderWay js buckets in
      let (out, e, good) = select-IsSelection js 241 0 buckets [] start (omega arith) in
      (
        out,
        e,
        record {
          most = λ p. omega (
            arith,
            count_if-sort (is_newer js) p out,
            good.most p,
            whole-fill_buckets p ordered [],
            count_if-sort (is_older js) p (newest_points js usable),
          );
          exact = λ p h. omega (
            arith,
            count_if-sort (is_newer js) p out,
            good.exact p (omega (arith, length-sort (is_newer js) out)),
            whole-fill_buckets p ordered [],
            count_if-sort (is_older js) p (newest_points js usable),
          );
          room = omega (arith, good.room, length-sort (is_newer js) out);
        },
      )

  All-selected_points {κ} :
      (P : SpatialPoint js → Type κ) (usable : List (SpatialPoint js))
      {out : List (SpatialPoint js)}
      → selected_points js usable ≡ some out
      → All P usable
      → All P (sort (is_newer js) out)
  unfolding selected_points
  All-selected_points P usable {out} e h =
      let ordered = sort (is_older js) (newest_points js usable) in
      All-sort (is_newer js) P out (
        select-All js P 241 0 (fill_buckets js ordered []) [] e
          (All-fill_buckets P ordered []
            (All-sort (is_older js) P (newest_points js usable) (All-newest_points js P usable h))
            tt)
          tt)

  module _ (points : List (SpatialPoint js)) (health : List (SensorHealth js))
      (generated_at_ms : Num) (vehicle : VehiclePose js) (display_radius_m : Num)
      (sensors : Option (List (SensorDisplaySetting js))) where
    abbrev may_show : SpatialPoint js → Bool
    may_show = is_displayable js health generated_at_ms vehicle display_radius_m sensors

    abbrev result : Bool → Option (List (SpatialPoint js))
    result connected =
        available_spatial_points js points health connected generated_at_ms vehicle display_radius_m
          sensors

    connected_result :
        (out : List (SpatialPoint js))
        → selected_points js (filter may_show points) ≡ some out
        → result true ≡ some (sort (is_newer js) out)
    unfolding available_spatial_points
    connected_result out e = rw e refl

    disconnected_result : result false ≡ some []
    unfolding available_spatial_points
    disconnected_result = refl

    -- The selection of points ends, within 241 rounds, and what it returns is at most 240 points.
    pub available_spatial_points_total :
        (connected : Bool)
        → (shown : List (SpatialPoint js)) × (available_spatial_points js points health connected
              generated_at_ms vehicle display_radius_m sensors
            ≡ some shown)
          × (length shown ≤ 240)
    available_spatial_points_total false = ([], disconnected_result, omega arith)
    available_spatial_points_total true =
        let (out, e, s) = selected_points-IsShownOf (filter may_show points) in
        (sort (is_newer js) out, connected_result out e, s.room)

    -- Every point that is shown is one of the given points and passes the tests for its sensor,
    -- age, quality and range, and points are shown only while the telemetry is connected.
    pub available_spatial_points_sound :
        (connected : Bool) (shown : List (SpatialPoint js))
        → available_spatial_points js points health connected generated_at_ms vehicle
            display_radius_m sensors
          ≡ some shown
        → All
            (λ p.
              (is_displayable js health generated_at_ms vehicle display_radius_m sensors p ≡ true)
              × Memᴰ p points
              × (connected ≡ true))
            shown
    available_spatial_points_sound false shown h =
        subst (All _) (some-injective _ _ (sym disconnected_result ∙ h)) tt
    available_spatial_points_sound true shown h =
        let (out, e, s) = selected_points-IsShownOf (filter may_show points) in
        let here : All (λ p. Memᴰ p points) points = All-of_mem _ points (λ p m. m) in
        let both =
          All-pair _ _ (filter may_show points) (All-filter may_show points)
            (All-filter_of (λ p. Memᴰ p points) may_show points here) in
        subst (All _) (some-injective _ _ (sym (connected_result out e) ∙ h)) (
          All-selected_points _ (filter may_show points) e
            (All-imp _ (filter may_show points) (λ p (a, b). (a, b, refl)) both))

    -- What is shown while the telemetry is connected.
    shown-IsShownOf :
        (shown : List (SpatialPoint js))
        → result true ≡ some shown
        → IsShownOf (filter may_show points) shown
    shown-IsShownOf shown h =
        let (out, e, s) = selected_points-IsShownOf (filter may_show points) in
        subst (IsShownOf (filter may_show points))
          (some-injective _ _ (sym (connected_result out e) ∙ h)) s

    -- No two shown points of one sensor lie in the same display cell.
    pub available_spatial_points_single :
        (connected : Bool) (shown : List (SpatialPoint js))
        → available_spatial_points js points health connected generated_at_ms vehicle
            display_radius_m sensors
          ≡ some shown
        → (key : String) → count_if (λ p. spatial_point_cell_key js p === key) shown ≤ 1
    available_spatial_points_single false shown h key =
        subst (λ s. count_if (is_in js key) s ≤ 1)
          (some-injective _ _ (sym disconnected_result ∙ h)) (unfold count_if in omega arith)
    available_spatial_points_single true shown h key = omega (
      arith,
      (shown-IsShownOf shown h).most (is_in js key),
      newest_points_single js (filter may_show points) key,
    )

    -- Where the telemetry is connected and fewer than 240 points are shown, every given point that
    -- passes the tests has its cell shown, by exactly one point.
    pub available_spatial_points_complete :
        (shown : List (SpatialPoint js))
        → available_spatial_points js points health true generated_at_ms vehicle display_radius_m
            sensors
          ≡ some shown
        → length shown < 240
        → (p : SpatialPoint js) → Memᴰ p points
        → is_displayable js health generated_at_ms vehicle display_radius_m sensors p ≡ true
        → count_if (λ q. spatial_point_cell_key js q === spatial_point_cell_key js p) shown ≡ 1
    available_spatial_points_complete shown h few p m good =
        (shown-IsShownOf shown h).exact (is_in js (spatial_point_cell_key js p)) few
        ∙ newest_points_cover js (filter may_show points) (mem-filter_of may_show points m good)
