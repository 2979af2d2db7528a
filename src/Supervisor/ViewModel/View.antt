-- ===== src/Supervisor/ViewModel/View.antt =====
-- supervisorViewModel.ts, lines 313 to 356: the whole view.
use sih.Prelude.{ℕ, Bool, true, not, ◌&&◌, List, length, filter, find, get_or}
use sih.Prelude.Runtime.{Runtime}
use sih.Prelude.Sort.{sort}
use mathlib.Core.Option
use sih.State.World.{WorldState, AlertEvent}
use sih.State.RangeReadings.{available_range_readings}
use sih.State.Selectors.{nearest_range, tof_sensor_health, tof_sensor_health_summary}
use sih.Supervisor.ViewModel.{
  SupervisorVehicle, PrimaryTelemetrySummary, Counts, SupervisorViewModel, SupervisorVehicleTone,
  nominal, attention, critical, lost, unknown, same_tone,
}
use sih.Supervisor.ViewModel.Vehicles.{reference_time, supervisor_vehicles}
use sih.Supervisor.ViewModel.Issues.{supervisor_issues}

module _ (js : Runtime) where
  open js use {decimal, lt, sub, mul, round}

  -- `vehicles.filter(…).length` for the tone
  unfoldable pub count_tone : SupervisorVehicleTone → List (SupervisorVehicle js) → ℕ
  unfolding filter
  count_tone tone' vehicles = length (filter (λ v. same_tone v.tone tone') vehicles)

  abbrev pub is_online : SupervisorVehicle js → Bool
  is_online v = not (same_tone v.tone lost) && lt (decimal 0 0) v.last_update_ms

  -- Lines 343 to 351.
  unfoldable pub counts_of : List (SupervisorVehicle js) → Counts js
  unfolding filter count_tone
  counts_of vehicles = record {
    total = length vehicles;
    online = length (filter is_online vehicles);
    nominal = count_tone nominal vehicles;
    attention = count_tone attention vehicles;
    critical = count_tone critical vehicles;
    lost = count_tone lost vehicles;
    unknown = count_tone unknown vehicles;
  }

  -- Lines 320 to 335.
  unfoldable pub primary_summary : WorldState js → SupervisorVehicle js → PrimaryTelemetrySummary js
  unfolding nearest_range available_range_readings tof_sensor_health tof_sensor_health_summary
  primary_summary world vehicle' = record {
    vehicle = vehicle';
    visibility_percent = round (mul world.environment.visibility_score (decimal 100 0));
    visibility_state = world.environment.visibility_state;
    temperature_c = world.environment.temperature_c;
    pressure_hpa = world.environment.pressure_hpa;
    relative_altitude_m = world.environment.relative_altitude_m;
    nearest_obstacle_m =
        nearest_range js (available_range_readings js world.ranges world.sensor_health true);
    corridor_state = world.safe_corridor.state;
    corridor_confidence = world.safe_corridor.confidence;
    corridor_reason = world.safe_corridor.reason;
    sensors = tof_sensor_health js world.sensor_health;
    sensor_summary = tof_sensor_health_summary js world.sensor_health;
  }

  -- `right.timestamp_ms - left.timestamp_ms` is positive.
  abbrev pub alert_after : AlertEvent js → AlertEvent js → Bool
  alert_after left right = lt (decimal 0 0) (sub right.timestamp_ms left.timestamp_ms)

  unfoldable pub create_supervisor_view_model : WorldState js → SupervisorViewModel js
  unfolding supervisor_vehicles supervisor_issues counts_of primary_summary find sort reference_time
  create_supervisor_view_model world =
      let shown = supervisor_vehicles js world in
      record {
        map_name = get_or world.reference_map_name "Reference map unavailable";
        reference_time_ms = reference_time js world;
        mode = world.mode;
        vehicles = shown;
        counts = counts_of shown;
        issues = supervisor_issues js world shown;
        history = sort alert_after world.alerts;
        primary = Option.map (primary_summary world) (find (λ v. v.is_primary) shown);
      }
