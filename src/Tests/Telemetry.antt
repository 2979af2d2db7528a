-- ===== src/Tests/Telemetry.antt =====
-- Runs of the telemetry hook (frontend/src/state/useTelemetry.ts), on the socket and on the demo.
use sih.Prelude.{
  ◌≡◌, refl, true, false, not, ◌&&◌, some, List, [], ◌∷◌, All, length, any, is_some, filter, find,
}
use sih.Tests.Engine.{engine, engine-equal}
use sih.Tests.Messages.{message as world_message}
use sih.Tests.Demo.{manifest_value, message_tests}
use sih.State.Connection.{connected, paused}
use sih.Tests.Playing.{playing}
use sih.State.Telemetry.Socket.{
  Telemetry, step, fire, act, connect, on_open, on_message, receive, accept, apply_world, with_map,
  map_key_of, on_close, retry_later, visibility_changed, end_effect, disconnect, world_answered,
  set_stale_timer, arm_stale_timer, start, without, Event, answered, opened, message, errored,
  closed, timer_fires, visible, unmount, run, mounted,
}
use sih.State.Telemetry.Socket.Invariant.{IsGood}
use sih.State.Telemetry.Socket.Soundness.{
  IsRecovering, run_reported_worlds, run_recovers, run_ended, run-Keeps, mounted-IsSound, IsQuiet,
}
use sih.State.Telemetry.Demo.{
  Happening, toggle, timer, download, watch, mount, update, play, report, reports, happen,
}
use sih.State.Telemetry.Demo.Laws.{watch_switched}
use sih.Prelude.Value.{array, cons, nil}

-- A message arrives; the socket closes long after, and the timer of reconnection fires.
abbrev events : List (Event engine)
events = opened 0 ∷ message 0 (some world_message) 10000 ∷ errored 0 ∷ closed 0 20000 ∷ []

abbrev attempts : List (Event engine)
attempts = closed 0 100 ∷ visible false ∷ answered (some world_message) 200 ∷ []

watching : Unit {0}
unfolding run step fire act connect on_open on_message receive accept apply_world with_map
    map_key_of on_close retry_later visibility_changed end_effect disconnect world_answered
    set_stale_timer arm_stale_timer start mounted without filter any find message_tests
watching = tt

-- The last reports are the closing of the socket and the loss of the connection.
events_reports : length (run engine events (mounted engine)).1 ≡ 4
unfolding watching
events_reports = refl

events_retry : (run engine events (mounted engine)).0.retry_ms ≡ 1500
unfolding watching
events_retry = refl

attempts_socket : is_some (run engine attempts (mounted engine)).0.socket ≡ true
unfolding watching
attempts_socket = refl

run_reported_worlds_example : All (IsGood engine) (run engine events (mounted engine)).1
run_reported_worlds_example = run_reported_worlds engine events

events_go_on : (run engine events (mounted engine)).0.disposed ≡ false
unfolding watching
events_go_on = refl

run_recovers_example : IsRecovering engine (run engine events (mounted engine)).0
run_recovers_example = run_recovers engine events events_go_on

abbrev left_page : Telemetry engine
left_page = (run engine (opened 0 ∷ unmount ∷ []) (mounted engine)).0

left_page-disposed : left_page.disposed ≡ true
unfolding watching
left_page-disposed = refl

run_ended_example :
    All
      (IsQuiet engine)
      (run engine
        (message 0 (some world_message) 300 ∷ timer_fires 1 ∷ visible false ∷ [])
        left_page).1
run_ended_example =
    run_ended engine (message 0 (some world_message) 300 ∷ timer_fires 1 ∷ visible false ∷ [])
      left_page
      (run-Keeps engine (opened 0 ∷ unmount ∷ []) (mounted engine) (mounted-IsSound engine)).sound
      left_page-disposed

-- On the demo: the first frame is shown, and then the page is paused.
abbrev viewing : List (Happening engine)
viewing =
    download 0 (some manifest_value)
    ∷ download 0 (some (array (cons world_message nil)))
    ∷ toggle
    ∷ timer 1
    ∷ []

demo_watching : Unit {0}
unfolding mount update play report reports happen watch playing
demo_watching = tt

viewing_connection : (watch engine viewing (mount engine false)).connection ≡ connected
unfolding demo_watching
viewing_connection = refl

viewing_status : (watch engine viewing (mount engine false)).demo_status ≡ paused
unfolding demo_watching
viewing_status = refl

viewing_mounted : (watch engine viewing (mount engine false)).mounted ≡ true
unfolding demo_watching
viewing_mounted = refl

watch_switched_example :
    let d = watch engine viewing (mount engine false) in
    (d.player.active ≡ (not d.hidden && not d.is_paused))
    × (d.player.active ≡ false → d.demo_status ≡ paused)
watch_switched_example = watch_switched engine engine-equal false viewing viewing_mounted
