-- ===== src/Auth/RoleSession.antt =====
-- frontend/src/auth/roleSession.ts: the role that the tab remembers, and the role that a link sets.
-- `window.sessionStorage` is the browser's: an interface whose operations may throw (`none`).
pub mod Laws
use sih.Prelude.{String, Bool, Option, none, some, if◌then◌else◌, ◌===◌, ◌≡◌}
use sih.Prelude.Runtime.{Runtime}
use sih.Layout.Views.{DashboardRole, driver, supervisor, dashboard_role_from_hash}

pub record WebStorage : Type 1 where
  pub Items : Type 0
  -- `none` where the call throws; a key with no value reads as `some none`
  pub get_item : Items → String → Option (Option String)
  pub set_item : Items → String → String → Option Items
  pub remove_item : Items → String → Option Items

abbrev pub role_session_key : String
role_session_key = "fogsen-dashboard-role"

-- The text that the session stores for a role.
abbrev pub role_text : DashboardRole → String
role_text driver = "DRIVER"
role_text supervisor = "SUPERVISOR"

unfoldable pub parse_dashboard_role : Option String → Option DashboardRole
parse_dashboard_role none = none
parse_dashboard_role (some value) =
    if value === "DRIVER"
    then some driver
    else (if value === "SUPERVISOR" then some supervisor else none)

module _ (js : Runtime) (web : WebStorage) where
  open web use {Items, get_item, set_item, remove_item}

  -- A page: its address and its session storage. `none` is a program without a `window`.
  pub record Page : Type 0 where
    pub hash : String
    pub session : Items

  abbrev pub stored_role : Items → Option DashboardRole
  stored_role items = elim (get_item items role_session_key) [
    | none ↦ none
    | some value ↦ parse_dashboard_role value
  ]

  unfoldable pub read_initial_role : Option Page → Option DashboardRole
  unfolding parse_dashboard_role
  read_initial_role none = none
  read_initial_role (some page) = elim (dashboard_role_from_hash js page.hash) [
    | some linked ↦ some linked
    | none ↦ stored_role page.session
  ]

  -- What a call that may throw leaves, where the source catches and ignores the error.
  abbrev pub attempt : Option Items → Page → Page
  attempt none page = page
  attempt (some items) page = record page { session = items }

  unfoldable pub save_role : DashboardRole → Option Page → Option Page
  save_role role none = none
  save_role role (some page) =
      some (attempt (set_item page.session role_session_key (role_text role)) page)

  unfoldable pub clear_role : Option Page → Option Page
  clear_role none = none
  clear_role (some page) = some (attempt (remove_item page.session role_session_key) page)
