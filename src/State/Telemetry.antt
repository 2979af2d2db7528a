-- ===== src/State/Telemetry.antt =====
-- frontend/src/state/useTelemetry.ts: where the dashboard's world state comes from. `Socket` is the
-- effect that keeps a web socket to the backend, `Demo` the two effects of the recorded demo; a
-- build has the one or the other.
pub mod Socket
pub mod Demo
