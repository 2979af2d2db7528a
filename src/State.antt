-- ===== src/State.antt =====
-- The dashboard's world model: validation, selection and transport (frontend/src/state).
pub mod Snapshot
pub mod Connection
pub mod World
pub mod RangeReadings
pub mod Selectors
pub mod Telemetry
pub mod SpatialPoints
