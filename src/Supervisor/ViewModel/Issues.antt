-- ===== src/Supervisor/ViewModel/Issues.antt =====
-- supervisorViewModel.ts, lines 276 to 316: the issues of the view.
use sih.Prelude.{
  ◌⊕◌, String, Bool, true, false, not, ◌&&◌, ◌||◌, List, [], ◌∷◌, ◌++◌, Option, none, some,
  if◌then◌else◌, ◌==◌,
}
use sih.Prelude.Runtime.{Runtime, Sign, before, after}
use sih.Prelude.Sort.{sort}
use sih.State.World.{VisibilityState, low, very_low, good, moderate, WorldState, HaulRouteState}
use sih.State.Selectors.{tof_sensor_health_summary}
use sih.Supervisor.ViewModel.{
  SupervisorVehicle, SupervisorIssue, IssueSeverity, warning_issue, critical_issue, sensor,
  visibility, safety, issue_for_vehicle,
}
use sih.Supervisor.ViewModel.Vehicles.{is_simulated_mode, is_poor, is_after, sensors_degraded}

abbrev pub visibility_text : VisibilityState → String
visibility_text good = "GOOD"
visibility_text moderate = "MODERATE"
visibility_text low = "LOW"
visibility_text very_low = "VERY_LOW"

abbrev pub is_very_low : VisibilityState → Bool
is_very_low very_low = true
is_very_low _ = false

abbrev pub is_critical : IssueSeverity → Bool
is_critical critical_issue = true
is_critical warning_issue = false

abbrev pub to_list {ℓ} : {A : Type ℓ} → Option A → List A
to_list none = []
to_list (some a) = a ∷ []

module _ (js : Runtime) where
  open js use {decimal, mul, round, show, replace_all, locale_compare}

  -- Lines 276 to 278.
  unfoldable pub vehicle_issues : List (SupervisorVehicle js) → List SupervisorIssue
  unfolding issue_for_vehicle
  vehicle_issues [] = []
  vehicle_issues (v ∷ vs) = to_list (issue_for_vehicle js v) ++ vehicle_issues vs

  -- Lines 280 to 289.
  unfoldable pub sensor_issues : WorldState js → List SupervisorIssue
  unfolding tof_sensor_health_summary
  sensor_issues world =
      let summary = tof_sensor_health_summary js world.sensor_health in
      if sensors_degraded js summary
      then record {
        id = "primary-sensor-health";
        severity = if summary.healthy == 0 then critical_issue else warning_issue;
        kind = sensor;
        vehicle_id = world.primary_vehicle_id;
        title = "Range sensor coverage reduced";
        detail =
            show (decimal summary.healthy 0)
            ⊕ " of "
            ⊕ show (decimal summary.total 0)
            ⊕ " ToF sensors report healthy.";
      }
        ∷ []
      else []

  -- Lines 291 to 300.
  unfoldable pub visibility_issues : WorldState js → List SupervisorIssue
  visibility_issues world =
      let state = world.environment.visibility_state in
      if is_poor state
      then record {
        id = "primary-visibility";
        severity = if is_very_low state then critical_issue else warning_issue;
        kind = visibility;
        vehicle_id = world.primary_vehicle_id;
        title = replace_all (visibility_text state) "_" " " ⊕ " visibility";
        detail =
            "Primary vehicle visibility is "
            ⊕ show (round (mul world.environment.visibility_score (decimal 100 0)))
            ⊕ "%.";
      }
        ∷ []
      else []

  -- Lines 302 to 312.
  unfoldable pub encounter_issue : WorldState js → HaulRouteState js → List SupervisorIssue
  encounter_issue world haul =
      if haul.obstacle_detected || haul.traffic_slowing || haul.lead_waiting
      then record {
        id = "haul-encounter";
        severity = warning_issue;
        kind = safety;
        vehicle_id = world.primary_vehicle_id;
        title = haul.next_instruction;
        detail =
            if haul.obstacle_detected
            then "Range-confirmed rock on the assigned track."
            else "Vehicle coordination on the haul track.";
      }
        ∷ []
      else []

  unfoldable pub haul_issues : WorldState js → List SupervisorIssue
  unfolding encounter_issue
  haul_issues world =
      if is_simulated_mode world.mode
      then elim world.haul_route [ none ↦ [] | some haul ↦ encounter_issue world haul ]
      else []

  -- The comparison of line 313.
  unfoldable pub compare_issues : SupervisorIssue → SupervisorIssue → Sign
  compare_issues left right =
      if is_critical left.severity && not (is_critical right.severity)
      then before
      else if is_critical right.severity && not (is_critical left.severity)
      then after
      else locale_compare left.vehicle_id right.vehicle_id

  abbrev pub issue_after : SupervisorIssue → SupervisorIssue → Bool
  issue_after left right = is_after (compare_issues left right)

  unfoldable pub raised_issues : WorldState js → List (SupervisorVehicle js) → List SupervisorIssue
  unfolding vehicle_issues sensor_issues visibility_issues haul_issues
  raised_issues world vehicles =
      vehicle_issues vehicles
      ++ (sensor_issues world ++ (visibility_issues world ++ haul_issues world))

  unfoldable pub supervisor_issues :
      WorldState js → List (SupervisorVehicle js) → List SupervisorIssue
  unfolding sort raised_issues compare_issues
  supervisor_issues world vehicles = sort issue_after (raised_issues world vehicles)
