-- ===== src/State/Telemetry/Demo/Invariant.antt =====
-- useTelemetry.ts, lines 19 to 59: what holds of the page between two events, and its reports.
use sih.Prelude.{
  ◌≡◌, refl, Bool, true, false, not, ◌&&◌, List, [], ◌∷◌, Option, none, some, All, arith,
}
use sih.Prelude.Runtime.{Runtime}
use sih.Prelude.Value.{Value}
use sih.State.Connection.{connecting, connected, disconnected, paused}
use sih.Simulation.Playback.{Player, Output, on_world, on_connection, step, Event, set_active}
use sih.Simulation.Playback.Invariant.{IsSound, IsGood, IsShown}
use sih.Simulation.Playback.Resume.{EqualIsNotAbove}
use sih.Simulation.Playback.Soundness.{step-Keeps}
use sih.Simulation.Playback.Switches.{is_report, change_active_lem}
use sih.State.Telemetry.Demo.{Demo, report, reports, play, is_watched}

module _ (js : Runtime) where
  open js use {Num}

  -- What the page shows is the default world, or a frame that passed the tests.
  abbrev pub IsDisplay : Option (Option (Value Num)) → Type 0
  IsDisplay none = Unit
  IsDisplay (some none) = ⊥
  IsDisplay (some (some frame)) = IsShown js frame

  -- What holds whatever the player reports.
  pub record IsShowing (d : Demo js) : Type 0 where
    pub player : IsSound js d.player
    pub display : IsDisplay d.world
    pub steady : d.received_frame ≡ true → d.connection ≡ connected

  pub record IsConsistent (d : Demo js) : Type 0 where
    pub showing : IsShowing d
    pub switched :
        d.mounted ≡ true → (d.player.active ≡ is_watched js d) × (d.player.disposed ≡ false)
    pub stopped : d.mounted ≡ false → d.player.disposed ≡ true
    pub rests : (d.mounted && not d.player.active) ≡ true → d.demo_status ≡ paused

  -- The page's own variables are as before.
  pub record IsKept (d d' : Demo js) : Type 0 where
    pub is_paused : d'.is_paused ≡ d.is_paused
    pub hidden : d'.hidden ≡ d.hidden
    pub mounted : d'.mounted ≡ d.mounted
    pub player : d'.player ≡ d.player

  reports-IsKept : (os : List (Output js)) (d : Demo js) → IsKept d (reports js os d)
  unfolding reports report
  reports-IsKept [] d = record { is_paused = refl; hidden = refl; mounted = refl; player = refl }
  reports-IsKept (on_world w ∷ os) d =
      let k = reports-IsKept os (report js (on_world w) d) in
      record { is_paused = k.is_paused; hidden = k.hidden; mounted = k.mounted; player = k.player }
  reports-IsKept (on_connection c ∷ os) d =
      let k = reports-IsKept os (report js (on_connection c) d) in
      record { is_paused = k.is_paused; hidden = k.hidden; mounted = k.mounted; player = k.player }

  reports-IsShowing :
      (os : List (Output js)) (d : Demo js)
      → is_report js os ≡ true
      → All (IsGood js) os
      → IsShowing d
      → IsShowing (reports js os d)
  unfolding reports report
  reports-IsShowing [] d r g s = s
  reports-IsShowing (on_connection disconnected ∷ []) d r g s = record {
    player = s.player;
    display = s.display;
    steady = ground arith;
  }
  reports-IsShowing (on_connection disconnected ∷ o ∷ os) d r g s = absurd (cc)
  reports-IsShowing (on_connection connecting ∷ os) d r g s = absurd (cc)
  reports-IsShowing (on_connection connected ∷ os) d r g s = absurd (cc)
  reports-IsShowing (on_world w ∷ []) d r g s = absurd (cc)
  reports-IsShowing (on_world w ∷ on_world v ∷ os) d r g s = absurd (cc)
  reports-IsShowing (on_world w ∷ on_connection connecting ∷ os) d r g s = absurd (cc)
  reports-IsShowing (on_world w ∷ on_connection disconnected ∷ os) d r g s = absurd (cc)
  reports-IsShowing (on_world w ∷ on_connection connected ∷ o ∷ os) d r g s = absurd (cc)
  reports-IsShowing (on_world none ∷ on_connection connected ∷ []) d r (bad, g) s = absurd bad
  reports-IsShowing (on_world (some w) ∷ on_connection connected ∷ []) d r (good, g) s = record {
    player = s.player;
    display = good;
    steady = λ _. refl;
  }

  module _ (numbers : EqualIsNotAbove js) where
    -- The player after an event.
    abbrev pub stepped : Event js → Demo js → Demo js
    stepped e d = record d { player = (step js e d.player).0 }

    pub play-IsKept : (e : Event js) (d : Demo js) → IsKept (stepped e d) (play js e d)
    unfolding play
    play-IsKept e d = reports-IsKept (step js e d.player).1 (stepped e d)

    pub play-IsShowing :
        (e : Event js) (d : Demo js)
        → is_report js (step js e d.player).1 ≡ true
        → IsShowing d
        → IsShowing (play js e d)
    unfolding play
    play-IsShowing e d r s =
        let k = step-Keeps js numbers e d.player s.player in
        reports-IsShowing (step js e d.player).1 (stepped e d) r k.good
          (record { player = k.sound; display = s.display; steady = s.steady })

    pub switch_lem :
        (next : Bool) (p : Player js)
        → p.disposed ≡ false
        → let o = step js (set_active next) p in
          (o.0.active ≡ next) × (o.0.disposed ≡ false) × (is_report js o.1 ≡ true)
    unfolding step
    switch_lem next p e = change_active_lem js next p e
