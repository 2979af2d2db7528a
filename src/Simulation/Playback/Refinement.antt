-- ===== src/Simulation/Playback/Refinement.antt =====
-- demoPlayback.ts: seen from outside, the player is a switch that only its two methods turn.
use sih.Prelude.{
  ◌≡◌, refl, ap, ◌∙◌, Bool, true, false, List, [], ◌∷◌, if◌then◌else◌, arith, Bool-cases, inl, inr,
}
use sih.Prelude.Runtime.{Runtime}
use sih.Simulation.Playback.{
  Player, Event, set_active, dispose, timer_fires, settles, change_active, dispose_player, step,
  run, new_player,
}
use sih.Simulation.Playback.Invariant.{IsSound}
use sih.Simulation.Playback.Resume.{EqualIsNotAbove}
use sih.Simulation.Playback.Laws.{new_player-IsSound}
use sih.Simulation.Playback.Soundness.{step-Keeps, stopped_after}
use sih.Simulation.Playback.Switches.{step-IsOrdinary, change_active_lem}

-- What a caller of `setActive` and `dispose` counts on.
pub record Switch : Type 0 where
  pub on : Bool
  pub gone : Bool

module _ (js : Runtime) where
  -- Timers and downloads do not touch the switch.
  unfoldable pub turn : Event js → Switch → Switch
  turn (set_active next) s = if s.gone then s else record { on = next; gone = false }
  turn dispose s = record { on = false; gone = true }
  turn (timer_fires handle) s = s
  turn (settles i result) s = s

  unfoldable pub turn_all : List (Event js) → Switch → Switch
  turn_all [] s = s
  turn_all (e ∷ es) s = turn_all es (turn e s)

  abbrev pub switch_of : Player js → Switch
  switch_of p = record { on = p.active; gone = p.disposed }

  abbrev switch_at : Bool → Bool → Switch
  switch_at on gone = record { on = on; gone = gone }

  both : {a b c d : Bool} → a ≡ b → c ≡ d → switch_at a c ≡ switch_at b d
  both {b = b} {c = c} e f = ap (λ x. switch_at x c) e ∙ ap (λ x. switch_at b x) f

  still : (b : Bool) (x y : Switch) → b ≡ false → y ≡ (if b then x else y)
  still b x y h = rw h refl

  module _ (numbers : EqualIsNotAbove js) where
    step-turn :
        (e : Event js) (p : Player js)
        → IsSound js p
        → switch_of (step js e p).0 ≡ turn e (switch_of p)
    unfolding step turn
    step-turn (set_active next) p s = elim (Bool-cases p.disposed) [
      | inl gone ↦ unfold change_active in ground arith
      | inr here ↦
          let (a, b, _) = change_active_lem js next p here in
          both a b ∙ still p.disposed (switch_of p) (switch_at next false) here
    ]
    step-turn dispose p s =
        both (unfold dispose_player in stopped_after js numbers p s) (unfold dispose_player in refl)
    step-turn (timer_fires i) p s =
        let o = step-IsOrdinary js (timer_fires i) p refl in
        both (unfold step in o.active) (unfold step in o.disposed)
    step-turn (settles i r) p s =
        let o = step-IsOrdinary js (settles i r) p refl in
        both (unfold step in o.active) (unfold step in o.disposed)

    run-turn :
        (es : List (Event js)) (p : Player js)
        → IsSound js p
        → switch_of (run js es p).0 ≡ turn_all es (switch_of p)
    unfolding run turn_all
    run-turn [] p s = refl
    run-turn (e ∷ es) p s =
        run-turn es (step js e p).0 (step-Keeps js numbers e p s).sound
        ∙ ap (turn_all es) (step-turn e p s)

    -- Where a number is not above its equal: after any sequence of events the player is active,
    -- and disposed, exactly as the calls of its two methods say that turn an abstract switch;
    -- timers and downloads do not turn it.
    pub run_refines :
        (es : List (Event js))
        → switch_of (run js es (new_player js)).0
          ≡ turn_all es (record { on = false; gone = false })
    unfolding new_player
    run_refines es = run-turn es (new_player js) (new_player-IsSound js numbers)
