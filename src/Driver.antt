-- ===== src/Driver.antt =====
-- The driver's page (frontend/src/driver).
pub mod Proximity
pub mod Dashboard
pub mod Lidar
