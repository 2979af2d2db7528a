-- ===== src/Auth/RoleSession/Laws.antt =====
-- What a tab remembers of its role, whatever the browser's storage does.
use sih.Prelude.{String, ◌≡◌, refl, none, some, Option-cases, inl, inr, arith, ◌⊎◌}
use sih.Prelude.Runtime.{Runtime}
use sih.Layout.Views.{DashboardRole, driver, supervisor, dashboard_role_from_hash}
use sih.Auth.RoleSession.{
  WebStorage, role_session_key, role_text, parse_dashboard_role, Page, read_initial_role, save_role,
  clear_role,
}

-- The documented behaviour of `Storage`: a successful write is read back, a removal leaves no value.
pub record IsStorage (web : WebStorage) : Type 0 where
  pub get-set :
      (s : web.Items) {s' : web.Items} (k v : String)
      → web.set_item s k v ≡ some s'
      → web.get_item s' k ≡ some (some v)
  pub get-remove :
      (s : web.Items) {s' : web.Items} (k : String)
      → web.remove_item s k ≡ some s'
      → web.get_item s' k ≡ some none

parse-role_text : (role : DashboardRole) → parse_dashboard_role (some (role_text role)) ≡ some role
unfolding parse_dashboard_role
parse-role_text driver = refl
parse-role_text supervisor = refl

parse-none : parse_dashboard_role none ≡ none
unfolding parse_dashboard_role
parse-none = refl

module _ (js : Runtime) (web : WebStorage) where
  -- A role in the address comes before whatever the session holds, readable or not.
  pub read-linked :
      (page : Page js web) {role : DashboardRole}
      → dashboard_role_from_hash js page.hash ≡ some role
      → read_initial_role js web (some page) ≡ some role
  unfolding read_initial_role
  read-linked page h = rw (h, read_initial_role)

  -- Where a page's address names no role: if the storage takes the write, the saved role is read
  -- back after a reload; if it refuses the write, saving leaves the page as it was.
  pub read-save :
      IsStorage web
      → (page : Page js web) (role : DashboardRole) → dashboard_role_from_hash js page.hash ≡ none
      → ((items : web.Items) × (web.set_item page.session role_session_key (role_text role)
            ≡ some items)
          × (read_initial_role js web (save_role js web role (some page)) ≡ some role))
        ⊎ ((web.set_item page.session role_session_key (role_text role) ≡ none)
            × (save_role js web role (some page) ≡ some page))
  unfolding read_initial_role save_role
  read-save laws page role h =
      elim (Option-cases (web.set_item page.session role_session_key (role_text role))) [
        | inl e ↦ inr (e, rw e refl)
        | inr (items, e) ↦ inl (
          items,
          e,
          ground (
            arith,
            laws.get-set page.session role_session_key (role_text role) e,
            parse-role_text role,
          ),
        )
      ]

  -- After logout the page has no role, unless its address names one; if the storage refuses the
  -- removal, the page is as it was.
  pub read-clear :
      IsStorage web
      → (page : Page js web) → dashboard_role_from_hash js page.hash ≡ none
      → (read_initial_role js web (clear_role js web (some page)) ≡ none)
        ⊎ (clear_role js web (some page) ≡ some page)
  unfolding read_initial_role clear_role
  read-clear laws page h = elim (Option-cases (web.remove_item page.session role_session_key)) [
    | inl e ↦ inr (rw e refl)
    | inr (items, e) ↦
        inl (ground (arith, laws.get-remove page.session role_session_key e, parse-none))
  ]
