-- ===== src/Simulation/Playback/Soundness.antt =====
-- demoPlayback.ts: the player's promises over every sequence of events.
use sih.Prelude.{
  ℕ, ◌≤◌, ◌<◌, ◌≡◌, refl, Bool, true, false, not, ◌||◌, List, [], ◌∷◌, if◌then◌else◌, length,
  get_elem?, ◌==◌, filter, any, All, arith, Bool-cases, Option-cases, inl, inr, All-append,
}
use sih.Prelude.Runtime.{Runtime}
use sih.Simulation.Playback.{
  Timer, Player, finish, advance, clear_timer, change_active, dispose_player, fire, step, run,
  Event, set_active, dispose, timer_fires, settles, same_flag, new_player,
}
use sih.Simulation.Playback.Invariant.{drivers, IsDriven, one_if, IsSound, IsGood}
use sih.Simulation.Playback.Steps.{advance-GoesOn}
use sih.Simulation.Playback.Resume.{EqualIsNotAbove, taken, resume_stale}
use sih.Prelude.{◌∙◌}
use sih.Simulation.Playback.Laws.{
  Keeps, settle_missing, settle_current, current_one, now_or_stale, going-Keeps, busy, settle-Keeps,
  switched-IsDriven, switched, new_player-IsSound,
}

module _ (js : Runtime) (numbers : EqualIsNotAbove js) where
  open js use {Num}

  change_same :
      (next : Bool) (p : Player js)
      → (p.disposed || same_flag p.active next) ≡ true
      → change_active js next p ≡ (p, [])
  unfolding change_active
  change_same next p e = ground arith

  change_on :
      (p : Player js)
      → (p.disposed || same_flag p.active true) ≡ false
      → change_active js true p ≡ advance js (switched js numbers true p)
  unfolding change_active
  change_on p e = ground arith

  change_off :
      (p : Player js)
      → (p.disposed || same_flag p.active false) ≡ false
      → change_active js false p ≡ (switched js numbers false p, [])
  unfolding change_active
  change_off p e = ground arith

  change_active-Keeps :
      (next : Bool) (p : Player js) → IsSound js p → Keeps js numbers (change_active js next p)
  change_active-Keeps next p s = elim (Bool-cases (p.disposed || same_flag p.active next)) [
    | inl same ↦ rw (change_same next p same) record { sound = s; good = tt }
    | inr other ↦ switch next other
  ]
    where
      switch :
          (next : Bool)
          → (p.disposed || same_flag p.active next) ≡ false
          → Keeps js numbers (change_active js next p)
      switch true other = rw (change_on p other) (
          unfold clear_timer in
          going-Keeps js numbers (switched js numbers true p) refl (ground arith) (
            advance-GoesOn js (switched js numbers true p) refl (ground arith)
              (switched-IsDriven js numbers true p s.driven)))
      switch false other = rw (change_off p other) record {
        sound =
            unfold clear_timer in
            record { driven = switched-IsDriven js numbers false p s.driven; stopped = λ _. refl };
        good = tt;
      }

  last_fired :
      (handle : ℕ) (ts : List (Timer js))
      → any (λ t. t.handle == handle) ts ≡ true
      → length ts ≤ 1
      → (0 < length ts) × (filter (λ t. not (t.handle == handle)) ts ≡ [])
  unfolding any filter
  last_fired handle [] e h = absurd (cc)
  last_fired handle (t ∷ []) e h = (omega arith, ground arith)
  last_fired handle (t ∷ u ∷ ts) e h = absurd (omega arith)

  fire_missing :
      (handle : ℕ) (p : Player js)
      → any (λ t. t.handle == handle) p.timers ≡ false
      → fire js handle p ≡ (p, [])
  unfolding fire
  fire_missing handle p e = rw e refl

  fire_last :
      (handle : ℕ) (p : Player js)
      → any (λ t. t.handle == handle) p.timers ≡ true
      → filter (λ t. not (t.handle == handle)) p.timers ≡ []
      → fire js handle p ≡ advance js (record p { timers = [] })
  unfolding fire
  fire_last handle p e none_left = rw (e, none_left) refl

  fire-Keeps : (handle : ℕ) (p : Player js) → IsSound js p → Keeps js numbers (fire js handle p)
  fire-Keeps handle p s = elim (Bool-cases (any (λ t. t.handle == handle) p.timers)) [
    | inr absent ↦ rw (fire_missing handle p absent) record { sound = s; good = tt }
    | inl here ↦
        let few : length p.timers ≤ 1 = omega (arith, s.driven.driven, one_if-le p.active) in
        let (some_timer, none_left) = last_fired handle p.timers here few in
        let (on, open') = busy js numbers p s (omega arith) in
        let idle : IsDriven js 0 (record p { timers = [] }) = record {
          driven = omega (arith, s.driven.driven, one_if-le p.active);
          issued = s.driven.issued;
          early = s.driven.early;
          held = tt;
          playable = s.driven.playable;
          shown = s.driven.shown;
          slow = s.driven.slow;
        } in
        rw (fire_last handle p here none_left) (
          going-Keeps js numbers (record p { timers = [] }) on open'
            (advance-GoesOn js (record p { timers = [] }) on open' idle))
  ]
    where
      one_if-le : (b : Bool) → one_if js b ≤ 1
      one_if-le true = omega arith
      one_if-le false = omega arith

  pub stopped_after : (p : Player js) → IsSound js p → (change_active js false p).0.active ≡ false
  unfolding change_active clear_timer
  stopped_after p s = ground (arith, s.stopped)

  dispose_player-Keeps : (p : Player js) → IsSound js p → Keeps js numbers (dispose_player js p)
  unfolding dispose_player
  dispose_player-Keeps p s =
      let k = change_active-Keeps false p s in
      let d = k.sound.driven in
      record {
        sound = record {
          driven = record {
            driven = d.driven;
            issued = d.issued;
            early = d.early;
            held = d.held;
            playable = d.playable;
            shown = tt;
            slow = d.slow;
          };
          stopped = λ _. stopped_after p s;
        };
        good = k.good;
      }

  -- Every event, in every order, leaves a sound player sound and reports good frames only.
  pub step-Keeps : (e : Event js) (p : Player js) → IsSound js p → Keeps js numbers (step js e p)
  unfolding step
  step-Keeps (set_active next) p s = change_active-Keeps next p s
  step-Keeps dispose p s = dispose_player-Keeps p s
  step-Keeps (timer_fires handle) p s = fire-Keeps handle p s
  step-Keeps (settles i result) p s = settle-Keeps js numbers i result p s

  pub run-Keeps :
      (es : List (Event js)) (p : Player js) → IsSound js p → Keeps js numbers (run js es p)
  unfolding run
  run-Keeps [] p s = record { sound = s; good = tt }
  run-Keeps (e ∷ es) p s =
      let (after, outputs) = step js e p in
      let k = step-Keeps e p s in
      let later = run-Keeps es after k.sound in
      record {
        sound = later.sound;
        good = All-append (IsGood js) outputs (run js es after).1 k.good later.good;
      }

  -- After any sequence of calls, timers and settled downloads, an active player has exactly one
  -- timer or unanswered download of its own that will make it go on, and an inactive one has none.
  pub run_one_driver :
      (es : List (Event js))
      → let p = (run js es (new_player js)).0 in drivers js p ≡ (if p.active then 1 else 0)
  run_one_driver es =
      (run-Keeps es (new_player js) (new_player-IsSound js numbers)).sound.driven.driven
      ∙ one_if-eq _
    where
      one_if-eq : (b : Bool) → one_if js b ≡ (if b then 1 else 0)
      one_if-eq true = refl
      one_if-eq false = refl

  -- Every frame that a player ever reports exists, passes the message test and is simulated.
  pub run-IsGood_frames : (es : List (Event js)) → All (IsGood js) (run js es (new_player js)).1
  run-IsGood_frames es = (run-Keeps es (new_player js) (new_player-IsSound js numbers)).good

  advance_disposed : (p : Player js) → p.disposed ≡ true → advance js p ≡ (p, [])
  unfolding advance
  advance_disposed p e = ground arith

  -- A disposed player is silent and stays disposed, whatever still settles or fires.
  pub step_disposed :
      (e : Event js) (p : Player js)
      → IsSound js p
      → p.disposed ≡ true
      → ((step js e p).1 ≡ []) × ((step js e p).0.disposed ≡ true)
  unfolding step
  step_disposed (set_active next) p s gone = unfold change_active in (ground arith, ground arith)
  step_disposed dispose p s gone = unfold dispose_player change_active in (ground arith, refl)
  step_disposed (timer_fires handle) p s gone = unfold fire advance in (ground arith, ground arith)
  step_disposed (settles i result) p s gone = elim (Option-cases (get_elem? p.flights i)) [
    | inl e ↦ rw (settle_missing js numbers i result p e) (refl, gone)
    | inr (f, e) ↦ elim (now_or_stale js numbers f p) [
      | inl now ↦
          let (on, open') = busy js numbers p s (current_one js numbers i p e now s.driven) in
          absurd (cc)
      | inr late ↦
          rw
            (
              settle_current js numbers i result p e,
              resume_stale js numbers f result (taken js numbers i p) late,
            )
            (refl, unfold finish in gone)
    ]
  ]

  -- A player that is sound and disposed makes no callback in any later sequence of events.
  pub run_disposed :
      (es : List (Event js)) (p : Player js)
      → IsSound js p
      → p.disposed ≡ true
      → (run js es p).1 ≡ []
  unfolding run
  run_disposed [] p s gone = refl
  run_disposed (e ∷ es) p s gone =
      let (silent, still) = step_disposed e p s gone in
      rw silent (run_disposed es (step js e p).0 (step-Keeps e p s).sound still)
