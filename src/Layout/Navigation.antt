-- ===== src/Layout/Navigation.antt =====
-- frontend/src/layout/useDashboardNavigation.ts: the hook's view beside the browser's address.
-- Effects and listeners become steps on a state. A page with no `window` is `none` in
-- `current_dashboard_view`; the title effect of lines 47 to 49 is the function `document_title`.
pub mod Laws
use sih.Prelude.{
  String, ◌≡◌, Bool, true, false, not, Option, none, some, List, [], ◌∷◌, ◌++◌, ◌&&◌, if◌then◌else◌,
  ◌===◌,
}
use sih.Prelude.Runtime.{Runtime}
use Prim.Native.String.{◌++◌ as append_text}
use sih.Layout.Views.{
  DashboardRole, DashboardView, driver, spatial, supervisor, default_dashboard_view,
  resolve_dashboard_route, dashboard_role_from_hash, dashboard_view_label,
}

-- `window.location.hash` and the entries of `window.history`, the shown one first.
pub record Browser : Type 0 where
  pub hash : String
  pub entries : List String

pub record Navigation : Type 0 where
  pub view : DashboardView
  pub browser : Browser

abbrev pub is_driver : DashboardRole → Bool
is_driver driver = true
is_driver supervisor = false

abbrev pub same_role : DashboardRole → DashboardRole → Bool
same_role driver driver = true
same_role supervisor supervisor = true
same_role _ _ = false

-- `history.replaceState(null, "", hash)` overwrites the entry that is shown.
abbrev pub replace_shown : String → List String → List String
replace_shown hash [] = hash ∷ []
replace_shown hash (_ ∷ older) = hash ∷ older

unfoldable pub replace_state : String → Browser → Browser
replace_state hash b = record { hash = hash; entries = replace_shown hash b.entries }

-- `history.pushState(null, "", hash)`
unfoldable pub push_state : String → Browser → Browser
push_state hash b = record { hash = hash; entries = hash ∷ b.entries }

module _ (js : Runtime) (static_demo : Bool) (role : DashboardRole) where
  unfoldable pub current_dashboard_view : Option Browser → DashboardView
  unfolding default_dashboard_view
  current_dashboard_view none = default_dashboard_view role
  current_dashboard_view (some b) =
      if static_demo && is_driver role && b.hash === ""
      then spatial
      else (resolve_dashboard_route js role b.hash).view

  unfoldable pub normalize_location : Browser → Navigation
  unfolding replace_state
  normalize_location b =
      let route = resolve_dashboard_route js role b.hash in
      record {
        view = route.view;
        browser = if not (b.hash === route.hash) then replace_state route.hash b else b;
      }

  -- The listener of `hashchange` and `popstate`.
  unfoldable pub sync_from_location : Navigation → Navigation
  unfolding normalize_location
  sync_from_location n = elim (dashboard_role_from_hash js n.browser.hash) [
    | none ↦ normalize_location n.browser
    | some linked ↦ if not (same_role linked role) then n else normalize_location n.browser
  ]

  unfoldable pub navigate : String → Navigation → Navigation
  unfolding push_state
  navigate requested n =
      let route = resolve_dashboard_route js role requested in
      record {
        view = route.view;
        browser =
            if not (n.browser.hash === route.hash)
            then push_state route.hash n.browser
            else n.browser;
      }

unfoldable pub document_title : DashboardView → String
unfolding dashboard_view_label
document_title view = append_text (dashboard_view_label view) " | MI Sense"
