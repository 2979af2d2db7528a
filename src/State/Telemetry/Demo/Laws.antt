-- ===== src/State/Telemetry/Demo/Laws.antt =====
-- useTelemetry.ts, lines 19 to 59: the page and the player agree, over every sequence of events.
use sih.Prelude.{
  ◌≡◌, refl, sym, ap, ◌∙◌, Bool, true, false, not, ◌&&◌, List, [], ◌∷◌, if◌then◌else◌, arith,
}
use sih.Prelude.Runtime.{Runtime}
use sih.State.Connection.{paused}
use sih.Simulation.Playback.{
  Player, new_player, step, Event, set_active, dispose, timer_fires, settles,
}
use sih.Simulation.Playback.Resume.{EqualIsNotAbove}
use sih.Simulation.Playback.Laws.{new_player-IsSound}
use sih.Simulation.Playback.Switches.{is_outside, step-IsOrdinary, dispose_player_lem, step_idle}
use sih.State.Telemetry.Demo.Invariant.{
  IsShowing, IsConsistent, play-IsKept, play-IsShowing, switch_lem,
}
use sih.State.Telemetry.Demo.{
  Demo, Happening, visibility, toggle, unmount, timer, download, reports, play, is_watched, update,
  mount, happen, watch,
}

module _ (js : Runtime) (numbers : EqualIsNotAbove js) where
  open js use {Num}

  settled :
      (b : Bool) (d : Demo js)
      → IsShowing js d
      → d.mounted ≡ true
      → d.player.active ≡ b
      → is_watched js d ≡ b
      → d.player.disposed ≡ false
      → IsConsistent js (if b then d else record d { demo_status = paused })
  settled true d s m a w e = record {
    showing = s;
    switched = λ _. (a ∙ sym w, e);
    stopped = λ gone. absurd (cc);
    rests = λ idle. absurd (ground arith);
  }
  settled false d s m a w e = record {
    showing = record { player = s.player; display = s.display; steady = s.steady };
    switched = λ _. (a ∙ sym w, e);
    stopped = λ gone. absurd (cc);
    rests = λ _. refl;
  }

  update-IsConsistent :
      (d : Demo js)
      → IsShowing js d
      → d.mounted ≡ true
      → d.player.disposed ≡ false
      → IsConsistent js (update js d)
  unfolding update
  update-IsConsistent d s m e =
      let next = is_watched js d in
      let (a, b, r) = switch_lem js numbers next d.player e in
      let k = play-IsKept js numbers (set_active next) d in
      let shown = play-IsShowing js numbers (set_active next) d r s in
      settled next (play js (set_active next) d) shown (k.mounted ∙ m)
        (ap (λ (p : Player js). p.active) k.player ∙ a) (ground (arith, k.hidden, k.is_paused))
        (ap (λ (p : Player js). p.disposed) k.player ∙ b)

  mount-IsConsistent : (hidden : Bool) → IsConsistent js (mount js hidden)
  unfolding mount
  mount-IsConsistent hidden =
      update-IsConsistent _
        (record { player = new_player-IsSound js numbers; display = tt; steady = λ e. absurd (cc) })
        refl (unfold new_player in refl)

  play_silent :
      (e : Event js) (d : Demo js)
      → (step js e d.player).1 ≡ []
      → (play js e d).demo_status ≡ d.demo_status
  unfolding play reports
  play_silent e d h = rw h refl

  -- A timer or a download, at a page that is consistent.
  outside-IsConsistent :
      (e : Event js) (d : Demo js)
      → is_outside js e ≡ true
      → IsConsistent js d
      → IsConsistent js (play js e d)
  outside-IsConsistent e d o c =
      let i = step-IsOrdinary js e d.player o in
      let k = play-IsKept js numbers e d in
      let active : (play js e d).player.active ≡ d.player.active =
        ap (λ (p : Player js). p.active) k.player ∙ i.active in
      let gone : (play js e d).player.disposed ≡ d.player.disposed =
        ap (λ (p : Player js). p.disposed) k.player ∙ i.disposed in
      record {
        showing = play-IsShowing js numbers e d i.reports c.showing;
        switched = λ m.
            let (a, b) = c.switched (sym k.mounted ∙ m) in
            (active ∙ a ∙ ground (arith, k.hidden, k.is_paused), gone ∙ b);
        stopped = λ m. gone ∙ c.stopped (sym k.mounted ∙ m);
        rests = λ idle.
            let still : d.player.active ≡ false = ground (arith, active) in
            play_silent e d (step_idle js numbers e d.player o c.showing.player still)
            ∙ c.rests (ground (arith, k.mounted, active));
      }

  end-IsConsistent :
      (d : Demo js)
      → IsConsistent js d
      → IsConsistent js (play js dispose (record d { mounted = false }))
  end-IsConsistent d c =
      let ended : Demo js = record d { mounted = false } in
      let k = play-IsKept js numbers dispose ended in
      let (gone, r) = dispose_player_lem js d.player in
      record {
        showing = play-IsShowing js numbers dispose ended (unfold step in r) (record {
          player = c.showing.player;
          display = c.showing.display;
          steady = c.showing.steady;
        });
        switched = λ m. absurd (cc (m, k.mounted));
        stopped = λ _. ap (λ (p : Player js). p.disposed) k.player ∙ (unfold step in gone);
        rests = λ idle. absurd (ground (arith, k.mounted));
      }

  if-IsConsistent :
      (b : Bool) (d d' : Demo js)
      → (b ≡ true → IsConsistent js d)
      → (b ≡ false → IsConsistent js d')
      → IsConsistent js (if b then d else d')
  if-IsConsistent true d d' h h' = h refl
  if-IsConsistent false d d' h h' = h' refl

  -- `update` after a change of the page's variables.
  updated-IsConsistent :
      (d d' : Demo js)
      → IsConsistent js d
      → IsShowing js d'
      → d'.mounted ≡ d.mounted
      → d'.player ≡ d.player
      → d.mounted ≡ true
      → IsConsistent js (update js d')
  updated-IsConsistent d d' c s e same m =
      update-IsConsistent d' s (e ∙ m) (ap (λ (p : Player js). p.disposed) same ∙ (c.switched m).1)

  happen-IsConsistent :
      (h : Happening js) (d : Demo js) → IsConsistent js d → IsConsistent js (happen js h d)
  unfolding happen
  happen-IsConsistent (visibility hidden) d c =
      let told : Demo js = record d { hidden = hidden } in
      let s : IsShowing js told = record {
        player = c.showing.player;
        display = c.showing.display;
        steady = c.showing.steady;
      } in
      if-IsConsistent d.mounted (update js told) told
        (λ m. updated-IsConsistent d told c s refl refl m)
        (λ m. record {
          showing = s;
          switched = λ on. absurd (cc);
          stopped = c.stopped;
          rests = c.rests;
        })
  happen-IsConsistent toggle d c =
      let turned : Demo js = record d { is_paused = not d.is_paused } in
      if-IsConsistent d.mounted (update js turned) d
        (λ m.
          updated-IsConsistent d turned c
            (record {
              player = c.showing.player;
              display = c.showing.display;
              steady = c.showing.steady;
            })
            refl refl m)
        (λ _. c)
  happen-IsConsistent unmount d c =
      if-IsConsistent d.mounted (play js dispose (record d { mounted = false })) d
        (λ _. end-IsConsistent d c) (λ _. c)
  happen-IsConsistent (timer i) d c = outside-IsConsistent (timer_fires i) d refl c
  happen-IsConsistent (download i r) d c = outside-IsConsistent (settles i r) d refl c

  watch-IsConsistent :
      (hs : List (Happening js)) (d : Demo js) → IsConsistent js d → IsConsistent js (watch js hs d)
  unfolding watch
  watch-IsConsistent [] d c = c
  watch-IsConsistent (h ∷ hs) d c =
      watch-IsConsistent hs (happen js h d) (happen-IsConsistent h d c)

  -- Where a number is not above its equal: after any sequence of events, while the page is
  -- mounted, the demo player is active exactly if the page is neither hidden nor paused, and
  -- otherwise the page says that it is paused.
  pub watch_switched :
      (hidden : Bool) (hs : List (Happening js))
      → (watch js hs (mount js hidden)).mounted ≡ true
      → let d = watch js hs (mount js hidden) in
        (d.player.active ≡ (not d.hidden && not d.is_paused))
        × (d.player.active ≡ false → d.demo_status ≡ paused)
  watch_switched hidden hs m =
      let c = watch-IsConsistent hs (mount js hidden) (mount-IsConsistent hidden) in
      ((c.switched m).0, λ idle. c.rests (ground arith))
