-- ===== src/Layout.antt =====
-- Routes and theme of the dashboard (frontend/src/layout, frontend/src/theme.ts).
pub mod Views
pub mod Navigation
pub mod Theme
