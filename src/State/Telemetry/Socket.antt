-- ===== src/State/Telemetry/Socket.antt =====
-- useTelemetry.ts, lines 61 to 164: the effect that keeps a web socket to the backend.
-- The closure's variables and the pending timers are one record. Each event, a callback of a socket,
-- a timer, the answer of `/api/world`, a change of visibility or the end of the effect, is one step;
-- a step returns the calls that it made, in order. Callbacks name their socket, in any order.
pub mod Invariant
pub mod Timers
pub mod Steps
pub mod Laws
pub mod Soundness
use sih.Prelude.{
  ℕ, suc, ◌+◌, ◌-◌, ◌*◌, ◌/◌, min, String, Bool, true, false, not, ◌&&◌, ◌||◌, List, [], ◌∷◌, ◌++◌,
  Option, none, some, if◌then◌else◌, length, ltb, ◌==◌, ◌===◌, ◌⊕◌, is_some, filter, find,
}
use sih.Prelude.Runtime.{Runtime}
use sih.Prelude.Value.{Value, null, array, object, prop, assign, items}
use sih.State.Connection.{ConnectionState, connecting, connected, disconnected}
use sih.State.Snapshot.World.{is_world_state_snapshot}
use sih.Simulation.Manifest.{is_truthy}

abbrev pub telemetry_stale_ms : ℕ
telemetry_stale_ms = 5000

abbrev pub first_telemetry_timeout_ms : ℕ
first_telemetry_timeout_ms = 8000

abbrev pub first_retry_ms : ℕ
first_retry_ms = 1200

abbrev pub last_retry_ms : ℕ
last_retry_ms = 2000

-- What a pending timer will do: `connect`, or one of the two callbacks that look for silence.
pub data Action : Type 0 where
  reconnect : Action
  quiet : ℕ → Action
  lost : Action

pub record Timer : Type 0 where
  pub handle : ℕ
  pub delay_ms : ℕ
  pub action : Action

abbrev pub is_at : Option ℕ → ℕ → Bool
is_at none handle = false
is_at (some h) handle = h == handle

-- `clearTimeout(timer)`
unfoldable pub without : Option ℕ → List Timer → List Timer
unfolding filter
without timer timers = filter (λ t. not (is_at timer t.handle)) timers

module _ (js : Runtime) where
  open js use {Num, decimal, show, text_of}

  pub data Output : Type 0 where
    on_world : Value Num → Output
    on_connection : ConnectionState → Output
    -- `new WebSocket(…)` and `close()`, with the socket
    opens : ℕ → Output
    closes : ℕ → Output

  pub record Telemetry : Type 0 where
    pub disposed : Bool
    pub socket : Option ℕ
    pub retry_timer : Option ℕ
    pub stale_timer : Option ℕ
    pub retry_ms : ℕ
    pub map_key : String
    pub reference_map : Value Num
    pub last_data_ms : ℕ
    -- the event loop: fresh names of sockets and timers, timers that have not fired
    pub next_id : ℕ
    pub timers : List Timer

  -- Times are those of `Date.now()`, in whole milliseconds.
  pub data Event : Type 0 where
    -- `/api/world` has answered, or failed
    answered : Option (Value Num) → ℕ → Event
    opened : ℕ → Event
    -- the parsed text of a message, or that it does not parse
    message : ℕ → Option (Value Num) → ℕ → Event
    errored : ℕ → Event
    closed : ℕ → ℕ → Event
    timer_fires : ℕ → Event
    visible : Bool → Event
    unmount : Event

  abbrev pub Outcome : Type 0
  Outcome = Telemetry × List Output

  -- The variables before the first `connect()`; the default world has no map.
  unfoldable pub start : Telemetry
  start = record {
    disposed = false;
    socket = none;
    retry_timer = none;
    stale_timer = none;
    retry_ms = first_retry_ms;
    map_key = "";
    reference_map = null;
    last_data_ms = 0;
    next_id = 0;
    timers = [];
  }

  -- `staleTimer = setTimeout(…, delay)`
  unfoldable pub set_stale_timer : Action → ℕ → Telemetry → Telemetry
  set_stale_timer action' delay t = record t {
    stale_timer = some t.next_id;
    next_id = suc t.next_id;
    timers = record { handle = t.next_id; delay_ms = delay; action = action' } ∷ t.timers;
  }

  -- `armStaleTimer` of a socket
  unfoldable pub arm_stale_timer : ℕ → ℕ → Telemetry → Telemetry
  unfolding without set_stale_timer
  arm_stale_timer s delay t =
      set_stale_timer (quiet s) delay (record t { timers = without t.stale_timer t.timers })

  unfoldable pub disconnect : Telemetry → Outcome
  unfolding without
  disconnect t = (
    record t { socket = none; timers = without t.stale_timer (without t.retry_timer t.timers) },
    elim t.socket [ none ↦ [] | some s ↦ closes s ∷ [] ],
  )

  -- The features of a map that passed the test are an array.
  abbrev pub features_text : Value Num → String
  features_text (array features) = show (decimal (length (items features)) 0)
  features_text _ = "undefined"

  unfoldable pub map_key_of : Value Num → String
  unfolding is_truthy
  map_key_of map =
      if is_truthy js map
      then text_of (prop map "map_id")
        ⊕ ":"
        ⊕ text_of (prop map "created_at_ms")
        ⊕ ":"
        ⊕ features_text (prop map "features")
      else ""

  -- `nextWorld.reference_map = map`
  unfoldable pub with_map : Value Num → Value Num → Value Num
  with_map map (object fs) = object (assign "reference_map" map fs)
  with_map map world = world

  unfoldable pub apply_world : ℕ → Value Num → Telemetry → Outcome
  unfolding map_key_of with_map
  apply_world now world t =
      let next_map = prop world "reference_map" in
      let next_key = map_key_of next_map in
      let same_map = next_key === t.map_key in
      let kept = if same_map then t.reference_map else next_map in
      (
        record t {
          map_key = if same_map then t.map_key else next_key;
          reference_map = kept;
          last_data_ms = now;
        },
        on_world (with_map kept world) ∷ on_connection connected ∷ [],
      )

  unfoldable pub connect : Telemetry → Outcome
  unfolding arm_stale_timer
  connect t = if t.disposed || is_some t.socket then (t, []) else (
    arm_stale_timer t.next_id first_telemetry_timeout_ms
        (record t { socket = some t.next_id; next_id = suc t.next_id }),
    (if t.last_data_ms == 0 then on_connection connecting ∷ [] else []) ++ (opens t.next_id ∷ []),
  )

  unfoldable pub world_answered : Option (Value Num) → ℕ → Telemetry → Outcome
  unfolding is_truthy is_world_state_snapshot apply_world
  world_answered none now t = (t, [])
  world_answered (some world) now t =
      if not t.disposed && is_truthy js world && is_world_state_snapshot js world
      then apply_world now world t
      else (t, [])

  unfoldable pub on_open : ℕ → Telemetry → Outcome
  unfolding arm_stale_timer
  on_open s t =
      if is_at t.socket s then (arm_stale_timer s first_telemetry_timeout_ms t, []) else (t, [])

  -- The `catch` block of `onmessage`.
  abbrev pub reject : ℕ → Telemetry → Outcome
  reject s t = (t, on_connection disconnected ∷ closes s ∷ [])

  -- The `try` block, where `isWorldStateSnapshot(nextWorld)` holds.
  unfoldable pub accept : ℕ → Value Num → ℕ → Telemetry → Outcome
  unfolding apply_world arm_stale_timer
  accept s world now t =
      let (applied, outputs) = apply_world now world t in
      (arm_stale_timer s telemetry_stale_ms (record applied { retry_ms = first_retry_ms }), outputs)

  unfoldable pub receive : ℕ → Option (Value Num) → ℕ → Telemetry → Outcome
  unfolding accept is_world_state_snapshot
  receive s none now t = reject s t
  receive s (some world) now t =
      if is_world_state_snapshot js world then accept s world now t else reject s t

  unfoldable pub on_message : ℕ → Option (Value Num) → ℕ → Telemetry → Outcome
  unfolding receive
  on_message s world now t =
      if not (is_at t.socket s) || t.disposed then (t, []) else receive s world now t

  -- Lines 147 and 148. The values of `retryMs * 1.25` that occur are whole numbers, up to the limit.
  unfoldable pub retry_later : Telemetry → Telemetry
  retry_later t = record t {
    retry_timer = some t.next_id;
    next_id = suc t.next_id;
    timers = record { handle = t.next_id; delay_ms = t.retry_ms; action = reconnect } ∷ t.timers;
    retry_ms = min (t.retry_ms * 5 / 4) last_retry_ms;
  }

  -- `now - lastDataMs < TELEMETRY_STALE_MS` and the delay of line 143 are written without a
  -- difference that may be negative.
  unfoldable pub on_close : ℕ → ℕ → Telemetry → Outcome
  unfolding without set_stale_timer retry_later
  on_close s now t =
      if not (is_at t.socket s) || t.disposed
      then (t, [])
      else let left = record t { socket = none; timers = without t.stale_timer t.timers } in
        if ltb 0 t.last_data_ms && ltb now (t.last_data_ms + telemetry_stale_ms)
        then (
          retry_later (set_stale_timer lost (telemetry_stale_ms + t.last_data_ms - now) left),
          [],
        )
        else (retry_later left, on_connection disconnected ∷ [])

  unfoldable pub act : Action → Telemetry → Outcome
  unfolding connect
  act reconnect t = connect t
  act (quiet s) t = (t, if is_at t.socket s then on_connection disconnected ∷ [] else [])
  act lost t =
      (t, if not (is_some t.socket) && not t.disposed then on_connection disconnected ∷ [] else [])

  unfoldable pub fire : ℕ → Telemetry → Outcome
  unfolding find without act
  fire handle t = elim (find (λ timer. timer.handle == handle) t.timers) [
    | none ↦ (t, [])
    | some timer ↦ act timer.action (record t { timers = without (some handle) t.timers })
  ]

  unfoldable pub visibility_changed : Bool → Telemetry → Outcome
  unfolding connect
  visibility_changed hidden t =
      if not t.disposed && not hidden && not (is_some t.socket) then connect t else (t, [])

  -- What the effect returns.
  unfoldable pub end_effect : Telemetry → Outcome
  unfolding disconnect
  end_effect t = disconnect (record t { disposed = true })

  unfoldable pub step : Event → Telemetry → Outcome
  step (answered world now) t = world_answered world now t
  step (opened s) t = on_open s t
  step (message s world now) t = on_message s world now t
  step (errored s) t = (t, closes s ∷ [])
  step (closed s now) t = on_close s now t
  step (timer_fires handle) t = fire handle t
  step (visible hidden) t = visibility_changed hidden t
  step unmount t = end_effect t

  -- A run of events, with all calls that were made.
  unfoldable pub run : List Event → Telemetry → Outcome
  run [] t = (t, [])
  run (e ∷ es) t =
      let (after, outputs) = step e t in
      let (last, later) = run es after in (last, outputs ++ later)

  -- The effect's first call is `connect()`.
  unfoldable pub mounted : Telemetry
  unfolding connect start
  mounted = (connect start).0
