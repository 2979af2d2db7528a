-- ===== src/Tests.antt =====
-- The tests, and each theorem at a concrete input.
mod Engine
mod Messages
mod Routes
mod Demo
mod Playing
mod Fleet
mod Cache
mod Telemetry
mod Points
mod Ahead
mod Trips
mod Settings
mod Driver
mod Scan
