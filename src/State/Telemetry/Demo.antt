-- ===== src/State/Telemetry/Demo.antt =====
-- useTelemetry.ts, lines 19 to 59 and 166: the hook on recorded data, around `createDemoPlayback`.
-- The state of React, the variables of the page and the player are one record; `update` runs when
-- the player is made, when the page is hidden or shown, and when `paused` changes.
pub mod Invariant
pub mod Laws
use sih.Prelude.{ℕ, Bool, true, false, not, ◌&&◌, List, [], ◌∷◌, Option, none, some, if◌then◌else◌}
use sih.Prelude.Runtime.{Runtime}
use sih.Prelude.Value.{Value}
use sih.State.Connection.{
  ConnectionState, connecting, connected, DemoStatus, loading_demo, demo, paused, buffering_demo,
}
use sih.Simulation.Playback.{
  Player, Output, on_world, on_connection, Outcome, new_player, step, Event, set_active, dispose,
  timer_fires, settles,
}

abbrev pub status_of : ConnectionState → DemoStatus
status_of connected = demo
status_of _ = buffering_demo

module _ (js : Runtime) where
  open js use {Num}

  -- `world` is `none` for `defaultWorldState`.
  pub record Demo : Type 0 where
    pub world : Option (Option (Value Num))
    pub connection : ConnectionState
    pub demo_status : DemoStatus
    pub is_paused : Bool
    pub received_frame : Bool
    pub hidden : Bool
    pub mounted : Bool
    pub player : Player js

  pub data Happening : Type 0 where
    -- `visibilitychange`, with `document.hidden`
    visibility : Bool → Happening
    toggle : Happening
    unmount : Happening
    -- the player's own timers and downloads
    timer : ℕ → Happening
    download : ℕ → Option (Value Num) → Happening

  -- `onWorld` and `onConnection`
  unfoldable pub report : Output js → Demo → Demo
  report (on_world frame) d = record d { received_frame = true; world = some frame }
  report (on_connection next) d = record d {
    demo_status = status_of next;
    connection = if d.received_frame then connected else next;
  }

  unfoldable pub reports : List (Output js) → Demo → Demo
  reports [] d = d
  reports (o ∷ os) d = reports os (report o d)

  -- The player takes a step, and its callbacks run.
  unfoldable pub play : Event js → Demo → Demo
  play e d =
      let (player, outputs) = step js e d.player in reports outputs (record d { player = player })

  abbrev pub is_watched : Demo → Bool
  is_watched d = not d.hidden && not d.is_paused

  unfoldable pub update : Demo → Demo
  update d =
      let switched = play (set_active (is_watched d)) d in
      if is_watched d then switched else record switched { demo_status = paused }

  -- The hook once its effects have run; `hidden` is `document.hidden` then.
  unfoldable pub mount : Bool → Demo
  mount hidden = update (record {
    world = none;
    connection = connecting;
    demo_status = loading_demo;
    is_paused = false;
    received_frame = false;
    hidden = hidden;
    mounted = true;
    player = new_player js;
  })

  -- After the end of the effects there is no listener, and `setPaused` does nothing.
  unfoldable pub happen : Happening → Demo → Demo
  happen (visibility hidden) d =
      let told = record d { hidden = hidden } in if d.mounted then update told else told
  happen toggle d = if d.mounted then update (record d { is_paused = not d.is_paused }) else d
  happen unmount d = if d.mounted then play dispose (record d { mounted = false }) else d
  happen (timer handle) d = play (timer_fires handle) d
  happen (download i result) d = play (settles i result) d

  unfoldable pub watch : List Happening → Demo → Demo
  watch [] d = d
  watch (h ∷ hs) d = watch hs (happen h d)
