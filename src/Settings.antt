-- ===== src/Settings.antt =====
-- frontend/src/settings: where the range sensors stand and how they are shown.
pub mod Sensors
pub mod Hook
