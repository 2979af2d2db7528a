-- ===== src/Layout/Views/Laws.antt =====
-- Links and roles: no link opens a view that the role may not see, and links round-trip.
use sih.Prelude.{String, ◌≡◌, refl, true, Option, none, some, arith, Bool-cases, inl, inr}
use sih.Prelude.Runtime.{Runtime}
use text.Mathlib.Text.{starts_with}
use sih.Layout.Views.{
  DashboardRole, DashboardView, driver, spatial, supervisor, settings, granted, view_text,
  is_dashboard_view_allowed, default_dashboard_view, dashboard_view_hash, view_by_hash,
  requested_view, resolve_dashboard_route, dashboard_role_from_hash, dashboard_view_from_hash,
}

default_allowed :
    (role : DashboardRole) → is_dashboard_view_allowed role (default_dashboard_view role) ≡ true
unfolding is_dashboard_view_allowed default_dashboard_view
default_allowed driver = refl
default_allowed supervisor = refl

granted_allowed :
    (role : DashboardRole) (v : Option DashboardView)
    → is_dashboard_view_allowed role (granted role v) ≡ true
granted_allowed role none = default_allowed role
granted_allowed role (some view) = elim (Bool-cases (is_dashboard_view_allowed role view)) [
  | inl e ↦ rw e e
  | inr e ↦ rw e (default_allowed role)
]

-- Lower-casing leaves the four hashes of the table as they are, since they are in lower case.
abbrev pub KeepsHashes : Runtime → Type 0
KeepsHashes js =
    (v : DashboardView) → js.to_lower_case (dashboard_view_hash v) ≡ dashboard_view_hash v

starts_with-hash : (v : DashboardView) → starts_with (dashboard_view_hash v) "#" ≡ true
unfolding dashboard_view_hash
starts_with-hash driver = refl
starts_with-hash spatial = refl
starts_with-hash supervisor = refl
starts_with-hash settings = refl

view_by_hash-hash : (v : DashboardView) → view_by_hash (dashboard_view_hash v) ≡ some v
unfolding view_by_hash dashboard_view_hash
view_by_hash-hash driver = refl
view_by_hash-hash spatial = refl
view_by_hash-hash supervisor = refl
view_by_hash-hash settings = refl

requested_view-text : (js : Runtime) (v : DashboardView) → requested_view js (view_text v) ≡ some v
unfolding requested_view
requested_view-text js driver = refl
requested_view-text js spatial = refl
requested_view-text js supervisor = refl
requested_view-text js settings = refl

module _ (js : Runtime) where
  -- Whatever destination is requested, the view that opens is one of the role's own, and the
  -- address shown for it is that view's hash.
  pub resolve-allowed :
      (role : DashboardRole) (destination : String)
      → let route = resolve_dashboard_route js role destination in
        (is_dashboard_view_allowed role route.view ≡ true)
        × (route.hash ≡ dashboard_view_hash route.view)
  unfolding resolve_dashboard_route
  resolve-allowed role destination = (granted_allowed role (requested_view js destination), refl)

  requested_view-hash :
      KeepsHashes js → (v : DashboardView) → requested_view js (dashboard_view_hash v) ≡ some v
  unfolding requested_view
  requested_view-hash keeps v = rw (starts_with-hash v, keeps v) (view_by_hash-hash v)

  -- Where lower-casing keeps the four hashes, a role that may see a view reaches it by the view's
  -- hash and by its name alike.
  pub resolve-reaches :
      KeepsHashes js
      → (role : DashboardRole) (v : DashboardView) → is_dashboard_view_allowed role v ≡ true
      → ((resolve_dashboard_route js role (dashboard_view_hash v)).view ≡ v)
        × ((resolve_dashboard_route js role (view_text v)).view ≡ v)
  unfolding resolve_dashboard_route
  resolve-reaches keeps role v allowed =
      (rw (requested_view-hash keeps v, allowed) refl, rw (requested_view-text js v, allowed) refl)

  -- Where lower-casing keeps the four hashes, the address that a route shows leads back to the
  -- same route.
  pub resolve_idempotent :
      KeepsHashes js
      → (role : DashboardRole) (destination : String)
      → let route = resolve_dashboard_route js role destination in
        resolve_dashboard_route js role route.hash ≡ route
  unfolding resolve_dashboard_route
  resolve_idempotent keeps role destination =
      let v = granted role (requested_view js destination) in
      rw (requested_view-hash keeps v, granted_allowed role (requested_view js destination)) refl

  -- A link that carries a role names a view that this role may see.
  pub role_from_hash-allowed :
      (hash : String) {role : DashboardRole}
      → dashboard_role_from_hash js hash ≡ some role
      → is_dashboard_view_allowed role (dashboard_view_from_hash js hash) ≡ true
  unfolding dashboard_role_from_hash dashboard_view_from_hash is_dashboard_view_allowed
  role_from_hash-allowed hash h = ground arith
