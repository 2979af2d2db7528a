-- ===== src/Tests/Routes.antt =====
-- Links, roles, sessions and themes (frontend/src/layout, frontend/src/theme.ts, frontend/src/auth).
use sih.Prelude.{String, ◌≡◌, ◌≢◌, ◌⊎◌, refl, true, arith, Option, none, some, [], ◌∷◌}
use sih.Tests.Engine.{engine}
use sih.Layout.Views.{
  driver, supervisor, spatial, settings, is_dashboard_view_allowed, dashboard_view_hash,
  resolve_dashboard_route, dashboard_role_from_hash,
}
use sih.Layout.Views.Laws.{KeepsHashes, resolve-allowed, resolve_idempotent}
use sih.Layout.Navigation.{Navigation, sync_from_location}
use sih.Layout.Navigation.Laws.{IsSettled, sync-IsSettled}
use sih.Auth.RoleSession.{
  role_session_key, role_text, WebStorage, Page, read_initial_role, save_role,
}
use sih.Layout.Theme.{theme_storage_key, theme_text, Window, light, read_initial_theme, save_theme}
use sih.Layout.Theme.Laws.{read_initial_theme-save_theme}
use sih.Auth.RoleSession.Laws.{IsStorage, read-save}

engine-KeepsHashes : KeepsHashes engine
unfolding dashboard_view_hash
engine-KeepsHashes driver = refl
engine-KeepsHashes spatial = refl
engine-KeepsHashes supervisor = refl
engine-KeepsHashes settings = refl

-- A driver who asks for the fleet view gets the driver's own.
refused_link :
    resolve_dashboard_route engine driver "#fleet" ≡ record { view = driver; hash = "#driver" }
unfolding resolve_dashboard_route
refused_link = refl

granted_link : (resolve_dashboard_route engine driver "SPATIAL").hash ≡ "#spatial"
unfolding resolve_dashboard_route
granted_link = refl

fleet_link : dashboard_role_from_hash engine "#fleet" ≡ some supervisor
unfolding dashboard_role_from_hash
fleet_link = refl

resolve-allowed_example :
    let route = resolve_dashboard_route engine driver "#fleet" in
    (is_dashboard_view_allowed driver route.view ≡ true)
    × (route.hash ≡ dashboard_view_hash route.view)
resolve-allowed_example = resolve-allowed engine driver "#fleet"

resolve_idempotent_example :
    let route = resolve_dashboard_route engine supervisor "#calibration" in
    resolve_dashboard_route engine supervisor route.hash ≡ route
resolve_idempotent_example = resolve_idempotent engine engine-KeepsHashes supervisor "#calibration"

abbrev start : Navigation
start = record { view = driver; browser = record { hash = "#driver"; entries = "#driver" ∷ [] } }

abbrev elsewhere : Navigation
elsewhere = record { view = driver; browser = record { hash = "#fleet"; entries = "#fleet" ∷ [] } }

sync-IsSettled_example :
    let linked = dashboard_role_from_hash engine "#fleet" in
    let n' = sync_from_location engine true driver elsewhere in
    (IsSettled driver n' × ((linked ≡ none) ⊎ (linked ≡ some driver)))
    ⊎ ((n' ≡ elsewhere) × (linked ≢ none) × (linked ≢ some driver))
sync-IsSettled_example = sync-IsSettled engine true driver elsewhere

-- A storage that holds one text, under whatever key.
abbrev one_cell : WebStorage
one_cell = record {
  Items = Option String;
  get_item = λ s k. some s;
  set_item = λ s k v. some (some v);
  remove_item = λ s k. some none;
}

one_cell-IsStorage : IsStorage one_cell
one_cell-IsStorage = record {
  get-set = λ s k v e. ground arith;
  get-remove = λ s k e. ground arith;
}

abbrev blank : Page engine one_cell
blank = record { hash = ""; session = none }

unlinked : dashboard_role_from_hash engine "" ≡ none
unfolding dashboard_role_from_hash
unlinked = refl

read-save_example :
    ((items : one_cell.Items) × (one_cell.set_item blank.session role_session_key (role_text driver)
        ≡ some items)
      × (read_initial_role engine one_cell (save_role engine one_cell driver (some blank))
          ≡ some driver))
    ⊎ ((one_cell.set_item blank.session role_session_key (role_text driver) ≡ none)
        × (save_role engine one_cell driver (some blank) ≡ some blank))
read-save_example = read-save engine one_cell one_cell-IsStorage blank driver unlinked

abbrev first_visit : Window one_cell
first_visit = record { storage = none; prefers_dark = some true }

read_initial_theme-save_theme_example :
    ((items : one_cell.Items) × (one_cell.set_item first_visit.storage theme_storage_key
          (theme_text light)
        ≡ some items)
      × (read_initial_theme one_cell (save_theme one_cell light (some first_visit)) ≡ light))
    ⊎ ((one_cell.set_item first_visit.storage theme_storage_key (theme_text light) ≡ none)
        × (save_theme one_cell light (some first_visit) ≡ some first_visit))
read_initial_theme-save_theme_example =
    read_initial_theme-save_theme one_cell one_cell-IsStorage light first_visit
