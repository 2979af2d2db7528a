-- ===== src/Simulation.antt =====
-- The recorded demo and its controls (frontend/src/simulation).
pub mod Manifest
pub mod Frames
pub mod ChunkCache
pub mod Playback
