-- ===== src/State/Snapshot.antt =====
-- frontend/src/state/worldStateSnapshot.ts: the run-time test of a message from the backend.
-- Each `is…` and `has…Shape` function of the source is one function here, over `Value`.
pub mod Basics
pub mod Sensors
pub mod Scene
pub mod V2x
pub mod World
pub mod Shape
pub mod Agreement
pub mod SceneAgreement
pub mod WorldAgreement
