-- ===== src/Tests/Playing.antt =====
-- A session of the demo player (frontend/src/simulation/demoPlayback.ts).
use sih.Prelude.{
  ◌≡◌, refl, true, false, if◌then◌else◌, none, some, List, [], ◌∷◌, All, length, filter, any,
}
use sih.Prelude.Value.{array, cons, nil}
use sih.Tests.Engine.{engine, engine-equal}
use sih.Tests.Messages.{message}
use sih.Tests.Demo.{manifest_value, message_tests}
use sih.Simulation.Manifest.{read_demo_manifest}
use sih.Simulation.Frames.{decode_demo_frames}
use sih.Simulation.Playback.{
  Event, Player, set_active, dispose, timer_fires, settles, new_player, run, step, change_active,
  advance, wait, dispose_player, clear_timer, fire, settle, resume, manifest_arrives, chunk_arrives,
  fetch_or_show, show_frame, fail, finish, set_timer,
}
use sih.Simulation.Playback.Refinement.{switch_of, turn, turn_all, run_refines}
use sih.Simulation.Playback.Invariant.{IsGood, drivers}
use sih.Simulation.Playback.Laws.{new_player-IsSound}
use sih.Simulation.Playback.Soundness.{run_one_driver, run-IsGood_frames, run_disposed, run-Keeps}

-- The manifest arrives, then its chunk; the next frame needs a download, which fails.
abbrev session : List (Event engine)
session =
    set_active true
    ∷ settles 0 (some manifest_value)
    ∷ settles 0 (some (array (cons message nil)))
    ∷ timer_fires 1
    ∷ settles 0 none
    ∷ []

unfoldable pub playing : Unit {0}
unfolding run step change_active dispose_player fire settle advance wait resume manifest_arrives
    chunk_arrives fetch_or_show show_frame fail finish set_timer clear_timer filter any new_player
    read_demo_manifest decode_demo_frames message_tests
playing = tt

session_retry : (run engine session (new_player engine)).0.retry_ms ≡ 2000
unfolding playing
session_retry = refl

session_reports : length (run engine session (new_player engine)).1 ≡ 3
unfolding playing
session_reports = refl

run_one_driver_example :
    let p = (run engine session (new_player engine)).0 in
    drivers engine p ≡ (if p.active then 1 else 0)
run_one_driver_example = run_one_driver engine engine-equal session

run-IsGood_frames_example : All (IsGood engine) (run engine session (new_player engine)).1
run-IsGood_frames_example = run-IsGood_frames engine engine-equal session

-- The page is left while the player waits for its manifest.
abbrev leaving : List (Event engine)
leaving = set_active true ∷ dispose ∷ []

abbrev left_player : Player engine
left_player = (run engine leaving (new_player engine)).0

left_player-disposed : left_player.disposed ≡ true
unfolding playing
left_player-disposed = refl

run_disposed_example :
    (run engine (settles 0 (some manifest_value) ∷ set_active true ∷ []) left_player).1 ≡ []
run_disposed_example =
    run_disposed engine engine-equal (settles 0 (some manifest_value) ∷ set_active true ∷ [])
      left_player
      (run-Keeps engine engine-equal leaving (new_player engine)
        (new_player-IsSound engine engine-equal)).sound
      left_player-disposed

run_refines_example :
    switch_of engine (run engine session (new_player engine)).0
    ≡ turn_all engine session (record { on = false; gone = false })
run_refines_example = run_refines engine engine-equal session

session_on :
    turn_all engine session (record { on = false; gone = false })
    ≡ record { on = true; gone = false }
unfolding turn_all turn
session_on = refl
