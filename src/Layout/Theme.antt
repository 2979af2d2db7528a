-- ===== src/Layout/Theme.antt =====
-- frontend/src/theme.ts: the light and the dark theme, over the browser's local storage.
pub mod Laws
use sih.Prelude.{String, Bool, true, false, Option, none, some, if◌then◌else◌, ◌===◌, get_or}
use sih.Auth.RoleSession.{WebStorage}

pub data Theme : Type 0 where
  light dark : Theme

abbrev pub theme_storage_key : String
theme_storage_key = "fogsen-theme"

abbrev pub theme_text : Theme → String
theme_text light = "light"
theme_text dark = "dark"

unfoldable pub resolve_theme : Option String → Bool → Theme
resolve_theme stored prefers_dark =
    let preferred = if prefers_dark then dark else light in
    elim stored [
      | none ↦ preferred
      | some text ↦ if text === "light" then light else if text === "dark" then dark else preferred
    ]

unfoldable pub opposite_theme : Theme → Theme
opposite_theme dark = light
opposite_theme light = dark

-- What `applyTheme` sets of a document: the two properties of its root, and the content of the
-- `meta` element, where there is one.
pub record Document : Type 0 where
  pub theme : Option String
  pub color_scheme : Option String
  pub theme_color : Option String

abbrev pub color_of : Theme → String
color_of dark = "#0a0d12"
color_of light = "#f4f6f8"

unfoldable pub apply_theme : Theme → Option Document → Option Document
apply_theme theme' none = none
apply_theme theme' (some page) = some (record {
  theme = some (theme_text theme');
  color_scheme = some (theme_text theme');
  theme_color = elim page.theme_color [ none ↦ none | some color ↦ some (color_of theme') ];
})

module _ (web : WebStorage) where
  open web use {Items, get_item, set_item}

  -- `window`: its local storage, and what the `prefers-color-scheme` query answers, where there is
  -- `matchMedia`.
  pub record Window : Type 0 where
    pub storage : Items
    pub prefers_dark : Option Bool

  -- A storage that throws is read as one without a theme.
  abbrev pub stored_theme : Items → Option String
  stored_theme items = elim (get_item items theme_storage_key) [ none ↦ none | some value ↦ value ]

  unfoldable pub read_initial_theme : Option Window → Theme
  unfolding resolve_theme
  read_initial_theme none = dark
  read_initial_theme (some window) =
      resolve_theme (stored_theme window.storage) (get_or window.prefers_dark true)

  unfoldable pub save_theme : Theme → Option Window → Option Window
  save_theme theme' none = none
  save_theme theme' (some window) =
      elim (set_item window.storage theme_storage_key (theme_text theme')) [
        | none ↦ some window
        | some items ↦ some (record window { storage = items })
      ]
