-- ===== src/Layout/Views.antt =====
-- frontend/src/layout/dashboardViews.ts: views, their hashes, and the policy of each role.
-- `DashboardRole` is declared here; the source declares it in auth/roleSession.ts, which uses this
-- module in turn.
pub mod Laws
use sih.Prelude.{
  String, Bool, true, false, Option, none, some, List, [], ◌∷◌, ◌&&◌, if◌then◌else◌, ◌===◌, get_or,
  filter, find, any, map,
}
use sih.Prelude.Runtime.{Runtime}
use text.Mathlib.Text.{starts_with}
use mathlib.Core.Option

pub data DashboardRole : Type 0 where
  driver supervisor : DashboardRole

pub data DashboardView : Type 0 where
  driver spatial supervisor settings : DashboardView

-- `DashboardWorkspace` is the same union of texts as `DashboardRole`.
abbrev pub DashboardWorkspace : Type 0
DashboardWorkspace = DashboardRole

pub record DashboardViewOption : Type 0 where
  pub value : DashboardView
  pub label : String
  pub hash : String
  pub workspace : DashboardWorkspace
  pub description : String

pub record DashboardRolePolicy : Type 0 where
  pub label : String
  pub home_view : DashboardView
  pub views : List DashboardView

pub record DashboardRoute : Type 0 where
  pub view : DashboardView
  pub hash : String

-- The text of a view, and `===` between views.
abbrev pub view_text : DashboardView → String
view_text driver = "DRIVER"
view_text spatial = "SPATIAL"
view_text supervisor = "SUPERVISOR"
view_text settings = "SETTINGS"

abbrev pub same_view : DashboardView → DashboardView → Bool
same_view driver driver = true
same_view spatial spatial = true
same_view supervisor supervisor = true
same_view settings settings = true
same_view _ _ = false

abbrev pub dashboard_views : List DashboardViewOption
dashboard_views =
    record {
      value = driver;
      label = "Awareness";
      hash = "#driver";
      workspace = driver;
      description = "Camera and corridor";
    }
    ∷ record {
      value = spatial;
      label = "Spatial";
      hash = "#spatial";
      workspace = driver;
      description = "Range field";
    }
    ∷ record {
      value = settings;
      label = "Calibration";
      hash = "#calibration";
      workspace = driver;
      description = "Sensor setup";
    }
    ∷ record {
      value = supervisor;
      label = "Fleet";
      hash = "#fleet";
      workspace = supervisor;
      description = "Fleet command";
    }
    ∷ []

abbrev pub role_policies : DashboardRole → DashboardRolePolicy
role_policies driver = record {
  label = "Driver";
  home_view = driver;
  views = driver ∷ spatial ∷ settings ∷ [];
}
role_policies supervisor = record {
  label = "Supervisor";
  home_view = supervisor;
  views = supervisor ∷ [];
}

-- `viewByHash.get(hash)`: the hashes of the table differ, so the map's lookup is the first hit.
unfoldable pub view_by_hash : String → Option DashboardView
unfolding find
view_by_hash hash = Option.map (λ v. v.value) (find (λ v. v.hash === hash) dashboard_views)

unfoldable pub is_dashboard_view_allowed : DashboardRole → DashboardView → Bool
unfolding any
is_dashboard_view_allowed role view = any (same_view view) (role_policies role).views

unfoldable pub dashboard_views_for_role : DashboardRole → List DashboardViewOption
unfolding filter is_dashboard_view_allowed
dashboard_views_for_role role = filter (λ v. is_dashboard_view_allowed role v.value) dashboard_views

unfoldable pub default_dashboard_view : DashboardRole → DashboardView
default_dashboard_view role = (role_policies role).home_view

unfoldable pub dashboard_role_label : DashboardRole → String
dashboard_role_label role = (role_policies role).label

unfoldable pub dashboard_view_hash : DashboardView → String
unfolding find
dashboard_view_hash view =
    get_or (Option.map (λ v. v.hash) (find (λ v. same_view v.value view) dashboard_views)) "#driver"

unfoldable pub dashboard_view_label : DashboardView → String
unfolding find
dashboard_view_label view =
    get_or (Option.map (λ v. v.label) (find (λ v. same_view v.value view) dashboard_views))
      "Awareness"

-- A requested view holds only if the role's policy has it; otherwise the role's home view.
abbrev pub granted : DashboardRole → Option DashboardView → DashboardView
granted role none = default_dashboard_view role
granted role (some view) =
    if is_dashboard_view_allowed role view then view else default_dashboard_view role

module _ (js : Runtime) where
  open js use {to_lower_case}

  unfoldable pub dashboard_view_from_hash : String → DashboardView
  unfolding view_by_hash
  dashboard_view_from_hash hash = get_or (view_by_hash (to_lower_case hash)) driver

  unfoldable pub dashboard_role_from_hash : String → Option DashboardRole
  unfolding find
  dashboard_role_from_hash hash =
      Option.map (λ v. v.workspace) (find (λ v. v.hash === to_lower_case hash) dashboard_views)

  unfoldable pub requested_view : String → Option DashboardView
  unfolding view_by_hash find
  requested_view destination =
      if starts_with destination "#"
      then view_by_hash (to_lower_case destination)
      else Option.map (λ v. v.value) (find (λ v. view_text v.value === destination) dashboard_views)

  unfoldable pub resolve_dashboard_route : DashboardRole → String → DashboardRoute
  unfolding requested_view is_dashboard_view_allowed default_dashboard_view dashboard_view_hash
  resolve_dashboard_route role destination =
      let view = granted role (requested_view destination) in
      record { view = view; hash = dashboard_view_hash view }
