-- ===== src/Layout/Navigation/Laws.antt =====
-- What the navigation hook guarantees after each of its steps.
use sih.Prelude.{
  String, ◌≡◌, ◌≢◌, ◌⊎◌, ◌+◌, ◌≤◌, refl, Bool, true, false, some, none, Bool-cases, Option-cases,
  inl, inr, arith, length, eq_iff, ◌===◌, ap, ◌∙◌,
}
use sih.Prelude.Runtime.{Runtime}
use sih.Layout.Views.{
  DashboardRole, is_dashboard_view_allowed, dashboard_view_hash, resolve_dashboard_route,
  dashboard_role_from_hash,
}
use sih.Layout.Views.Laws.{resolve-allowed}
use sih.Layout.Navigation.{
  Browser, Navigation, normalize_location, sync_from_location, navigate, same_role,
}

-- The shown view is one of the role's own, and the address bar shows its hash.
pub record IsSettled (role : DashboardRole) (n : Navigation) : Type 0 where
  pub allowed : is_dashboard_view_allowed role n.view ≡ true
  pub shown : n.browser.hash ≡ dashboard_view_hash n.view

same_role-eq : (a b : DashboardRole) → same_role a b ≡ true → a ≡ b
same_role-eq a b h = ground arith

same_role-ne : (a b : DashboardRole) → same_role a b ≡ false → a ≢ b
same_role-ne a b h = ground arith

module _ (js : Runtime) (static_demo : Bool) (role : DashboardRole) where
  -- Following a link or name inside the page leaves a view of the role's own whose hash the
  -- address shows, and adds at most one entry to the history.
  navigate-IsSettled :
      (requested : String) (n : Navigation)
      → let n' = navigate js static_demo role requested n in
        IsSettled role n' × (length n'.browser.entries ≤ length n.browser.entries + 1)
  unfolding navigate
  navigate-IsSettled requested n =
      let route = resolve_dashboard_route js role requested in
      let (allowed, shown) = resolve-allowed js role requested in
      elim (Bool-cases (n.browser.hash === route.hash)) [
        | inl e ↦ rw e (record { allowed = allowed; shown = (eq_iff _ _).0 e ∙ shown }, omega arith)
        | inr e ↦ rw e (record { allowed = allowed; shown = shown }, omega arith)
      ]

  normalize-IsSettled : (b : Browser) → IsSettled role (normalize_location js static_demo role b)
  unfolding normalize_location
  normalize-IsSettled b =
      let route = resolve_dashboard_route js role b.hash in
      let (allowed, shown) = resolve-allowed js role b.hash in
      elim (Bool-cases (b.hash === route.hash)) [
        | inl e ↦ rw e (record { allowed = allowed; shown = (eq_iff _ _).0 e ∙ shown })
        | inr e ↦ rw e (record { allowed = allowed; shown = shown })
      ]

  -- After the address changes, the shown view is one of the role's own and the address shows its
  -- hash, unless the address is a link of the other role; such a link changes neither the view nor
  -- the history.
  pub sync-IsSettled :
      (n : Navigation)
      → let linked = dashboard_role_from_hash js n.browser.hash in
        let n' = sync_from_location js static_demo role n in
        (IsSettled role n' × ((linked ≡ none) ⊎ (linked ≡ some role)))
        ⊎ ((n' ≡ n) × (linked ≢ none) × (linked ≢ some role))
  unfolding sync_from_location
  sync-IsSettled n = elim (Option-cases (dashboard_role_from_hash js n.browser.hash)) [
    | inl e ↦ inl (rw (e, sync_from_location) (normalize-IsSettled n.browser), inl e)
    | inr (linked, e) ↦ elim (Bool-cases (same_role linked role)) [
      | inl s ↦ inl (
        rw (e, sync_from_location, s) (normalize-IsSettled n.browser),
        inr (e ∙ ap some (same_role-eq linked role s)),
      )
      | inr s ↦
          inr (rw (e, sync_from_location, s) refl, λ q. cc, λ q. same_role-ne linked role s (cc))
    ]
  ]
