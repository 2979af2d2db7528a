-- ===== src/Supervisor/ViewModel.antt =====
-- frontend/src/supervisor/supervisorViewModel.ts, lines 16 to 163: the parts of the view, the tone
-- of a vehicle and the issue that it raises. The child modules hold `createSupervisorViewModel`.
pub mod Vehicles
pub mod Issues
pub mod View
pub mod Totals
pub mod Kept
pub mod Order
pub mod Raised
use sih.Prelude.{
  ◌⊕◌, ℕ, String, Bool, true, false, not, ◌&&◌, ◌||◌, List, [], ◌∷◌, Option, none, some,
  if◌then◌else◌, leb, ◌==◌, ◌===◌, is_some,
}
use sih.Prelude.Runtime.{Runtime}
use sih.State.World.{
  DataMode, VisibilityState, CorridorState, LinkStatus, excellent_link, good_link, degraded_link,
  lost_link, HaulVehicleState, SensorHealth, AlertEvent,
}
use sih.State.Selectors.{SensorSummary}

pub data SupervisorVehicleTone : Type 0 where
  nominal attention critical lost unknown : SupervisorVehicleTone

-- `"WARNING" | "CRITICAL"`
pub data IssueSeverity : Type 0 where
  warning_issue critical_issue : IssueSeverity

pub data IssueKind : Type 0 where
  safety connectivity sensor visibility : IssueKind

pub record SupervisorIssue : Type 0 where
  pub id : String
  pub severity : IssueSeverity
  pub kind : IssueKind
  pub vehicle_id : String
  pub title : String
  pub detail : String

module _ (js : Runtime) where
  open js use {Num}

  pub record SupervisorVehicle : Type 0 where
    pub haul : Option (HaulVehicleState js)
    pub vehicle_id : String
    pub is_primary : Bool
    pub is_simulated : Bool
    pub source_label : String
    pub has_position : Bool
    pub x_m : Num
    pub y_m : Num
    pub heading_deg : Num
    pub speed_mps : Num
    pub position_confidence : Option Num
    pub emergency_state : Option String
    pub link_status : Option LinkStatus
    pub distance_m : Option Num
    pub last_update_ms : Num
    pub age_ms : Num
    pub tone : SupervisorVehicleTone

  pub record PrimaryTelemetrySummary : Type 0 where
    pub vehicle : SupervisorVehicle
    pub visibility_percent : Num
    pub visibility_state : VisibilityState
    pub temperature_c : Num
    pub pressure_hpa : Num
    pub relative_altitude_m : Num
    pub nearest_obstacle_m : Option Num
    pub corridor_state : CorridorState
    pub corridor_confidence : Num
    pub corridor_reason : String
    pub sensors : List (SensorHealth js)
    pub sensor_summary : SensorSummary

  pub record Counts : Type 0 where
    pub total : ℕ
    pub online : ℕ
    pub nominal : ℕ
    pub attention : ℕ
    pub critical : ℕ
    pub lost : ℕ
    pub unknown : ℕ

  pub record SupervisorViewModel : Type 0 where
    pub map_name : String
    pub reference_time_ms : Num
    pub mode : DataMode
    pub vehicles : List SupervisorVehicle
    pub counts : Counts
    pub issues : List SupervisorIssue
    pub history : List (AlertEvent js)
    pub primary : Option PrimaryTelemetrySummary

-- `UNSAFE_RANK[state] ?? 3`, for a state in upper case
abbrev pub unsafe_rank : String → ℕ
unsafe_rank state =
    if state === "EMERGENCY_STOP"
    then 4
    else if state === "CRITICAL"
    then 3
    else if state === "WARNING"
    then 2
    else if state === "SAFE"
    then 1
    else 3

abbrev pub tone_rank : SupervisorVehicleTone → ℕ
tone_rank critical = 5
tone_rank lost = 4
tone_rank attention = 3
tone_rank unknown = 2
tone_rank nominal = 1

abbrev pub same_tone : SupervisorVehicleTone → SupervisorVehicleTone → Bool
same_tone a b = tone_rank a == tone_rank b

-- A text counts as true unless it is empty.
abbrev pub is_set_text : String → Bool
is_set_text s = not (s === "")

abbrev pub is_lost : Option LinkStatus → Bool
is_lost (some lost_link) = true
is_lost _ = false

abbrev pub is_degraded : Option LinkStatus → Bool
is_degraded (some degraded_link) = true
is_degraded _ = false

-- `emergencyState` counts as true: neither null nor empty.
abbrev pub is_stated : Option String → Bool
is_stated none = false
is_stated (some state) = is_set_text state

abbrev pub emergency_rank : Option String → ℕ
emergency_rank none = 0
emergency_rank (some state) = if is_set_text state then unsafe_rank state else 0

unfoldable pub vehicle_tone :
    Option String → Option LinkStatus → Bool → Bool → Bool → SupervisorVehicleTone
vehicle_tone emergency link is_primary sensors_degraded visibility_degraded =
    let rank = emergency_rank emergency in
    if is_lost link
    then lost
    else if leb 3 rank
    then critical
    else if rank == 2 || is_degraded link || is_primary && (sensors_degraded || visibility_degraded)
    then attention
    else if not (is_stated emergency) && not is_primary
    then unknown
    else nominal

module _ (js : Runtime) where
  open js use {to_upper_case, replace_all}

  unfoldable pub normalized_emergency_state : Option String → Option String
  normalized_emergency_state none = none
  normalized_emergency_state (some state) =
      if is_set_text state then some (to_upper_case state) else none

  -- Lines 129 to 140, for a stated emergency.
  unfoldable pub safety_issue : String → String → SupervisorIssue
  safety_issue vehicle_id' emergency =
      let is_critical = emergency === "CRITICAL" || emergency === "EMERGENCY_STOP" in
      record {
        id = "safety-" ⊕ vehicle_id' ⊕ "-" ⊕ emergency;
        severity = if is_critical then critical_issue else warning_issue;
        kind = safety;
        vehicle_id = vehicle_id';
        title = replace_all emergency "_" " ";
        detail =
            if is_critical
            then "The vehicle reports an immediate safety intervention."
            else "The vehicle reports a safety condition that needs review.";
      }

  -- Lines 142 to 162.
  unfoldable pub link_issue : SupervisorVehicle js → Option SupervisorIssue
  link_issue vehicle =
      if is_lost vehicle.link_status
      then some (record {
        id = "link-lost-" ⊕ vehicle.vehicle_id;
        severity = warning_issue;
        kind = connectivity;
        vehicle_id = vehicle.vehicle_id;
        title = "Vehicle contact lost";
        detail = "The simulated V2X peer is no longer reporting a current position.";
      })
      else if is_degraded vehicle.link_status
      then some (record {
        id = "link-degraded-" ⊕ vehicle.vehicle_id;
        severity = warning_issue;
        kind = connectivity;
        vehicle_id = vehicle.vehicle_id;
        title = "Vehicle link degraded";
        detail = "Coordination data may arrive late or intermittently.";
      })
      else none

  -- `emergency && emergency !== "SAFE"`
  abbrev pub unsafe_state : Option String → Option String
  unsafe_state none = none
  unsafe_state (some state) =
      if is_set_text state && not (state === "SAFE") then some state else none

  unfoldable pub issue_for_vehicle : SupervisorVehicle js → Option SupervisorIssue
  unfolding normalized_emergency_state safety_issue link_issue
  issue_for_vehicle vehicle =
      elim (unsafe_state (normalized_emergency_state vehicle.emergency_state)) [
        | some emergency ↦ some (safety_issue vehicle.vehicle_id emergency)
        | none ↦ link_issue vehicle
      ]
