-- ===== src/State/Connection.antt =====
-- frontend/src/state/useTelemetry.ts, lines 8 and 9: what the dashboard says of its source.
pub data ConnectionState : Type 0 where
  connecting connected disconnected : ConnectionState

pub data DemoStatus : Type 0 where
  loading_demo demo paused buffering_demo : DemoStatus
