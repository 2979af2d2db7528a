-- ===== src/Spatial.antt =====
-- Geometry of the driver's views (frontend/src/spatial).
pub mod Projection
pub mod RouteGeometry
pub mod ForwardHazard
