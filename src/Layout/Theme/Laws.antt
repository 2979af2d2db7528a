-- ===== src/Layout/Theme/Laws.antt =====
-- theme.ts: a saved theme is the one that the next visit starts with.
use sih.Prelude.{
  arith, String, Bool, ◌≡◌, ◌⊎◌, inl, inr, refl, ap, ◌∙◌, Option, none, some, Option-cases, get_or,
  true,
}
use sih.Auth.RoleSession.{WebStorage}
use sih.Auth.RoleSession.Laws.{IsStorage}
use sih.Layout.Theme.{
  Theme, light, dark, theme_text, theme_storage_key, resolve_theme, Window, stored_theme,
  read_initial_theme, save_theme,
}

resolve-theme_text :
    (theme : Theme) (prefers_dark : Bool)
    → resolve_theme (some (theme_text theme)) prefers_dark ≡ theme
unfolding resolve_theme
resolve-theme_text light prefers_dark = refl
resolve-theme_text dark prefers_dark = refl

module _ (web : WebStorage) where
  saved :
      (theme : Theme) (window : Window web) {items : web.Items}
      → web.set_item window.storage theme_storage_key (theme_text theme) ≡ some items
      → save_theme web theme (some window) ≡ some (record window { storage = items })
  unfolding save_theme
  saved theme window e = rw (e, save_theme) refl

  not_saved :
      (theme : Theme) (window : Window web)
      → web.set_item window.storage theme_storage_key (theme_text theme) ≡ none
      → save_theme web theme (some window) ≡ some window
  unfolding save_theme
  not_saved theme window e = rw (e, save_theme) refl

  stored_of :
      (items : web.Items) {value : Option String}
      → web.get_item items theme_storage_key ≡ some value
      → stored_theme web items ≡ value
  stored_of items e = ground arith

  read_saved :
      (theme : Theme) (window : Window web)
      → web.get_item window.storage theme_storage_key ≡ some (some (theme_text theme))
      → read_initial_theme web (some window) ≡ theme
  unfolding read_initial_theme
  read_saved theme window e =
      ap (λ stored. resolve_theme stored (get_or window.prefers_dark true))
        (stored_of window.storage e)
      ∙ resolve-theme_text theme (get_or window.prefers_dark true)

  -- If the storage takes the write, the saved theme is the one that the next visit starts with,
  -- whatever colours the system prefers; if it refuses the write, saving leaves the window as it
  -- was.
  pub read_initial_theme-save_theme :
      IsStorage web
      → (theme : Theme) (window : Window web)
      → ((items : web.Items) × (web.set_item window.storage theme_storage_key (theme_text theme)
            ≡ some items)
          × (read_initial_theme web (save_theme web theme (some window)) ≡ theme))
        ⊎ ((web.set_item window.storage theme_storage_key (theme_text theme) ≡ none)
            × (save_theme web theme (some window) ≡ some window))
  read_initial_theme-save_theme laws theme window =
      elim (Option-cases (web.set_item window.storage theme_storage_key (theme_text theme))) [
        | inl e ↦ inr (e, not_saved theme window e)
        | inr (items, e) ↦ inl (
          items,
          e,
          ap (read_initial_theme web) (saved theme window e)
              ∙ read_saved theme (record window { storage = items })
                  (laws.get-set window.storage theme_storage_key (theme_text theme) e),
        )
      ]
