-- ===== src/State/Telemetry/Socket/Invariant.antt =====
-- useTelemetry.ts: the invariant of the socket's effect.
use sih.Prelude.{
  ℕ, ◌≤◌, ◌<◌, ◌≡◌, Bool, true, false, ◌&&◌, ◌||◌, List, [], ◌∷◌, Option, none, some, All, any,
  is_some, ◌==◌,
}
use sih.Prelude.Runtime.{Runtime}
use sih.State.Snapshot.Scene.{has_reference_map_shape}
use sih.State.Snapshot.World.{is_world_state_snapshot}
use sih.State.Telemetry.Socket.{
  Action, reconnect, Timer, is_at, Telemetry, Outcome, Output, on_world, on_connection, opens,
  closes, first_retry_ms, last_retry_ms,
}

abbrev pub is_reconnect : Action → Bool
is_reconnect reconnect = true
is_reconnect _ = false

abbrev pub is_retry : Timer → Bool
is_retry timer = is_reconnect timer.action

abbrev pub IsBelow : ℕ → Option ℕ → Type 0
IsBelow n none = Unit
IsBelow n (some h) = h < n

-- No two timers have one handle.
abbrev pub IsDistinct : List Timer → Type 0
IsDistinct [] = Unit
IsDistinct (t ∷ ts) = All (λ u. (u.handle == t.handle) ≡ false) ts × IsDistinct ts

-- The timer of silence is no timer of reconnection.
abbrev pub IsApart : Option ℕ → Timer → Type 0
IsApart stale timer = (is_retry timer && is_at stale timer.handle) ≡ false

-- The part about the timers.
pub record IsOrderly (stale : Option ℕ) (n : ℕ) (timers : List Timer) : Type 0 where
  pub issued : All (λ t. t.handle < n) timers
  pub known : IsBelow n stale
  pub distinct : IsDistinct timers
  pub apart : All (IsApart stale) timers

module _ (js : Runtime) where
  open js use {Num}

  pub record IsTidy (t : Telemetry js) : Type 0 where
    pub orderly : IsOrderly t.stale_timer t.next_id t.timers
    pub ended : t.disposed ≡ true → t.socket ≡ none
    pub mapped : has_reference_map_shape js t.reference_map ≡ true
    pub slow : (first_retry_ms ≤ t.retry_ms) × (t.retry_ms ≤ last_retry_ms)

  -- There is a socket, or a timer that will make one.
  abbrev pub is_alive : Telemetry js → Bool
  is_alive t = is_some t.socket || any is_retry t.timers

  pub record IsSound (t : Telemetry js) : Type 0 where
    pub tidy : IsTidy t
    pub alive : (t.disposed || is_alive t) ≡ true

  -- A world that is reported passes the test on messages.
  abbrev pub IsGood : Output js → Type 0
  IsGood (on_world world) = is_world_state_snapshot js world ≡ true
  IsGood (on_connection c) = Unit
  IsGood (opens s) = Unit
  IsGood (closes s) = Unit

  pub record Keeps (o : Outcome js) : Type 0 where
    pub sound : IsSound o.0
    pub good : All IsGood o.1
