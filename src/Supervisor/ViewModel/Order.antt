-- ===== src/Supervisor/ViewModel/Order.antt =====
-- supervisorViewModel.ts: the orders in which the view lists vehicles and issues.
use sih.Prelude.{
  ℕ, ◌+◌, ◌*◌, ◌≡◌, sym, ◌∙◌, Bool, true, false, ◌&&◌, ◌||◌, ltb, ◌==◌, List, [], ◌∷◌, All-imp,
  String, arith, if◌then◌else◌,
}
use sih.Prelude.Runtime.{Runtime}
use sih.Prelude.Sort.{IsComparator, IsSortedBy, sort-IsSortedBy, by_key, by_key-IsComparator}
use sih.State.World.{WorldState}
use sih.Supervisor.ViewModel.{
  SupervisorVehicle, SupervisorVehicleTone, SupervisorIssue, IssueSeverity, critical_issue,
  warning_issue, critical, lost, attention, unknown, nominal, tone_rank,
}
use sih.Supervisor.ViewModel.Vehicles.{
  is_after, compare_vehicles, vehicle_after, supervisor_vehicles, gathered_vehicles,
}
use sih.Supervisor.ViewModel.Issues.{
  is_critical, compare_issues, issue_after, supervisor_issues, raised_issues,
}
use sih.Supervisor.ViewModel.View.{create_supervisor_view_model}

-- The documented behaviour of `localeCompare`: it is a consistent comparison.
abbrev pub IsCollation : Runtime → Type 0
IsCollation js = IsComparator (λ (a b : String). is_after (js.locale_compare a b))

-- A comparison that agrees with a comparator is one.
as-IsComparator {ℓ} :
    {A : Type ℓ} {f g : A → A → Bool}
    → ((x y : A) → f x y ≡ g x y)
    → IsComparator g
    → IsComparator f
as-IsComparator agree c = record {
  asymmetric = λ x y h. agree y x ∙ c.asymmetric x y (sym (agree x y) ∙ h);
  transitive =
      λ x y z h k. agree x z ∙ c.transitive x y z (sym (agree x y) ∙ h) (sym (agree y z) ∙ k);
}

-- The order in which a supervisor should see the tones: 0 is what is listed first.
abbrev pub place_of : SupervisorVehicleTone → ℕ
place_of critical = 0
place_of lost = 1
place_of attention = 2
place_of unknown = 3
place_of nominal = 4

abbrev pub issue_place : IssueSeverity → ℕ
issue_place critical_issue = 0
issue_place warning_issue = 1

-- Of two vehicles of one tone, the primary one stands first.
abbrev pub role_place : Bool → ℕ
role_place true = 0
role_place false = 1

module _ (js : Runtime) where
  open js use {locale_compare}

  abbrev pub comes_after : String → String → Bool
  comes_after a b = is_after (locale_compare a b)

  -- `a` should stand behind `b`: by tone, then by role, then by id.
  abbrev pub is_vehicle_behind : SupervisorVehicle js → SupervisorVehicle js → Bool
  is_vehicle_behind a b =
      ltb (place_of b.tone) (place_of a.tone)
      || place_of a.tone == place_of b.tone
        && (ltb (role_place b.is_primary) (role_place a.is_primary)
            || role_place a.is_primary == role_place b.is_primary
              && comes_after a.vehicle_id b.vehicle_id)

  -- `a` should stand behind `b`: by severity, then by the vehicle's id.
  abbrev pub is_issue_behind : SupervisorIssue → SupervisorIssue → Bool
  is_issue_behind a b =
      ltb (issue_place b.severity) (issue_place a.severity)
      || issue_place a.severity == issue_place b.severity && comes_after a.vehicle_id b.vehicle_id

  vehicle_behind_lem : (a b : SupervisorVehicle js) → vehicle_after js a b ≡ is_vehicle_behind a b
  unfolding compare_vehicles
  vehicle_behind_lem a b = ground arith

  issue_behind_lem : (a b : SupervisorIssue) → issue_after js a b ≡ is_issue_behind a b
  unfolding compare_issues
  issue_behind_lem a b = ground arith

-- Lists sorted by one comparison are sorted by one that agrees with it.
IsSortedBy-agree {ℓ} :
    {A : Type ℓ} {f g : A → A → Bool}
    → ((x y : A) → f x y ≡ g x y)
    → (xs : List A) → IsSortedBy f xs
    → IsSortedBy g xs
IsSortedBy-agree agree [] h = tt
IsSortedBy-agree {f = f} agree (x ∷ xs) (below, h) = (
  All-imp (λ y. f x y ≡ false) xs (λ y e. sym (agree x y) ∙ e) below,
  IsSortedBy-agree agree xs h,
)

module _ (js : Runtime) (collation : IsCollation js) where
  open js use {locale_compare}

  abbrev vehicle_key : SupervisorVehicle js → ℕ
  vehicle_key v = 2 * tone_rank v.tone + (if v.is_primary then 1 else 0)

  abbrev id_after : SupervisorVehicle js → SupervisorVehicle js → Bool
  id_after a b = is_after (locale_compare a.vehicle_id b.vehicle_id)

  vehicle_after_lem :
      (a b : SupervisorVehicle js) → vehicle_after js a b ≡ by_key vehicle_key id_after a b
  unfolding compare_vehicles
  vehicle_after_lem a b = ground arith

  vehicle_after-IsComparator : IsComparator (vehicle_after js)
  vehicle_after-IsComparator = as-IsComparator vehicle_after_lem (
      by_key-IsComparator vehicle_key id_after (record {
        asymmetric = λ x y h. collation.asymmetric x.vehicle_id y.vehicle_id h;
        transitive = λ x y z h k. collation.transitive x.vehicle_id y.vehicle_id z.vehicle_id h k;
      }))

  abbrev issue_key : SupervisorIssue → ℕ
  issue_key i = if is_critical i.severity then 1 else 0

  abbrev issue_tie : SupervisorIssue → SupervisorIssue → Bool
  issue_tie a b = is_after (locale_compare a.vehicle_id b.vehicle_id)

  issue_after_lem : (a b : SupervisorIssue) → issue_after js a b ≡ by_key issue_key issue_tie a b
  unfolding compare_issues
  issue_after_lem a b = ground arith

  issue_after-IsComparator : IsComparator (issue_after js)
  issue_after-IsComparator = as-IsComparator issue_after_lem (
      by_key-IsComparator issue_key issue_tie (record {
        asymmetric = λ x y h. collation.asymmetric x.vehicle_id y.vehicle_id h;
        transitive = λ x y z h k. collation.transitive x.vehicle_id y.vehicle_id z.vehicle_id h k;
      }))

  -- Where `localeCompare` is a consistent comparison, the view lists critical vehicles first, then
  -- lost ones, those that need attention, unknown and nominal ones, of one tone the primary
  -- vehicle first, and after that by id; and of its issues the critical ones first, and after that
  -- by the vehicle's id.
  pub view-IsSortedBy :
      (world : WorldState js)
      → let view = create_supervisor_view_model js world in
        IsSortedBy (is_vehicle_behind js) view.vehicles
        × IsSortedBy (is_issue_behind js) view.issues
  unfolding create_supervisor_view_model supervisor_vehicles supervisor_issues
  view-IsSortedBy world = (
    IsSortedBy-agree (vehicle_behind_lem js) (supervisor_vehicles js world)
        (sort-IsSortedBy vehicle_after-IsComparator (gathered_vehicles js world)),
    IsSortedBy-agree (issue_behind_lem js)
        (supervisor_issues js world (supervisor_vehicles js world))
        (sort-IsSortedBy issue_after-IsComparator
          (raised_issues js world (supervisor_vehicles js world))),
  )
