-- ===== src/Simulation/Playback/Switches.antt =====
-- demoPlayback.ts: only the two methods switch a player; timers and downloads leave it as active, or
-- as disposed, as it was, and a player that is not active reports nothing.
use sih.Prelude.{
  ℕ, suc, ◌%◌, ◌≡◌, refl, Bool, true, false, not, List, [], ◌∷◌, Option, none, some, arith,
  Option-cases, inl, inr, get_elem?, ◌==◌, length, filter,
}
use sih.Prelude.Runtime.{Runtime}
use sih.Prelude.Value.{Value}
use sih.State.Connection.{connected, disconnected}
use sih.Simulation.Manifest.{Chunk, DemoManifest, read_demo_manifest}
use sih.Simulation.Frames.{decode_demo_frames}
use sih.Simulation.Playback.{
  Output, on_world, on_connection, Stage, manifest_stage, chunk_stage, Flight, Player, Outcome,
  Event, timer_fires, settles, set_active, dispose, finish, fail, show_frame, wait, fetch_or_show,
  advance, manifest_arrives, chunk_arrives, resume, resume_with, fire, settle, step, remove_at,
  set_timer, change_active, clear_timer, dispose_player,
}
use sih.Simulation.Playback.Invariant.{IsSound}
use sih.Simulation.Playback.Resume.{EqualIsNotAbove, taken, resume_stale}
use sih.Simulation.Playback.Laws.{settle_current, settle_missing, busy, current_one, now_or_stale}

module _ (js : Runtime) where
  open js use {Num}

  -- What one event reports: nothing, a failure, or a frame and that there is a connection.
  abbrev pub is_report : List (Output js) → Bool
  is_report [] = true
  is_report (on_connection disconnected ∷ []) = true
  is_report (on_world frame ∷ on_connection connected ∷ []) = true
  is_report _ = false

  pub record IsOrdinary (p : Player js) (o : Outcome js) : Type 0 where
    pub active : o.0.active ≡ p.active
    pub disposed : o.0.disposed ≡ p.disposed
    pub reports : is_report o.1 ≡ true

  fail-IsOrdinary : (i c : ℕ) (p : Player js) → IsOrdinary p (fail js i c p)
  unfolding fail finish set_timer
  fail-IsOrdinary i c p = ground arith

  show_frame-IsOrdinary :
      (m : DemoManifest js) (i c : ℕ) (p : Player js) → IsOrdinary p (show_frame js m i c p)
  unfolding show_frame finish set_timer
  show_frame-IsOrdinary m i c p = ground arith

  fetch_or_show-IsOrdinary :
      (m : DemoManifest js) (i c : ℕ) (p : Player js) → IsOrdinary p (fetch_or_show js m i c p)
  unfolding fetch_or_show wait
  fetch_or_show-IsOrdinary m i c p =
      ground (arith, fail-IsOrdinary i c p, show_frame-IsOrdinary m i c p)

  advance-IsOrdinary : (p : Player js) → IsOrdinary p (advance js p)
  unfolding advance wait
  advance-IsOrdinary p = elim (Option-cases p.manifest) [
    | inl e ↦ ground arith
    | inr (m, e) ↦ ground (
      arith,
      fetch_or_show-IsOrdinary m p.generation p.next_id
          (record p { request = some p.next_id; next_id = suc p.next_id }),
    )
  ]

  manifest_arrives-IsOrdinary :
      (i c : ℕ) (value : Value Num) (p : Player js) → IsOrdinary p (manifest_arrives js i c value p)
  unfolding manifest_arrives finish
  manifest_arrives-IsOrdinary i c value p = elim (Option-cases (read_demo_manifest js value)) [
    | inl e ↦ ground (arith, fail-IsOrdinary i c p)
    | inr (m, e) ↦ ground (arith, fetch_or_show-IsOrdinary m i c (record p { manifest = some m }))
  ]

  chunk_arrives-IsOrdinary :
      (chunk : Chunk js) (i c : ℕ) (value : Value Num) (p : Player js)
      → IsOrdinary p (chunk_arrives js chunk i c value p)
  unfolding chunk_arrives finish
  chunk_arrives-IsOrdinary chunk i c value p = elim (Option-cases p.manifest) [
    | inl e ↦ ground (arith, fail-IsOrdinary i c p)
    | inr (m, e) ↦ elim (Option-cases (decode_demo_frames js value m.reference_map chunk.frames)) [
      | inl bad ↦ ground (arith, fail-IsOrdinary i c p)
      | inr (decoded, good) ↦ ground (
        arith,
        show_frame-IsOrdinary m i c (record p {
          frames = decoded;
          frame_index = 0;
          chunk_index = suc p.chunk_index % length m.chunks;
        }),
      )
    ]
  ]

  resume-IsOrdinary :
      (f : Flight js) (result : Option (Value Num)) (p : Player js)
      → IsOrdinary p (resume js f result p)
  unfolding resume
  resume-IsOrdinary f none p = fail-IsOrdinary f.token f.controller p
  resume-IsOrdinary f (some value) p = arrives f.stage
    where
      arrives :
          (stage : Stage js) → IsOrdinary p (resume_with js stage f.token f.controller value p)
      arrives manifest_stage = manifest_arrives-IsOrdinary f.token f.controller value p
      arrives (chunk_stage chunk) = chunk_arrives-IsOrdinary chunk f.token f.controller value p

  fire-IsOrdinary : (i : ℕ) (p : Player js) → IsOrdinary p (fire js i p)
  unfolding fire
  fire-IsOrdinary i p =
      ground (
        arith,
        advance-IsOrdinary (record p { timers = filter (λ t. not (t.handle == i)) p.timers }),
      )

  settle-IsOrdinary :
      (i : ℕ) (result : Option (Value Num)) (p : Player js) → IsOrdinary p (settle js i result p)
  unfolding settle
  settle-IsOrdinary i result p = elim (Option-cases (get_elem? p.flights i)) [
    | inl e ↦ ground arith
    | inr (f, e) ↦
        ground (arith, resume-IsOrdinary f result (record p { flights = remove_at i p.flights }))
  ]

  -- An event of the environment: a timer, or a download that settles.
  abbrev pub is_outside : Event js → Bool
  is_outside (timer_fires i) = true
  is_outside (settles i result) = true
  is_outside _ = false

  pub step-IsOrdinary :
      (e : Event js) (p : Player js) → is_outside e ≡ true → IsOrdinary p (step js e p)
  unfolding step
  step-IsOrdinary (set_active next) p h = absurd (cc)
  step-IsOrdinary dispose p h = absurd (cc)
  step-IsOrdinary (timer_fires i) p h = fire-IsOrdinary i p
  step-IsOrdinary (settles i result) p h = settle-IsOrdinary i result p

  -- `setActive` of a player that is not disposed.
  pub change_active_lem :
      (next : Bool) (p : Player js)
      → p.disposed ≡ false
      → ((change_active js next p).0.active ≡ next)
        × ((change_active js next p).0.disposed ≡ false)
        × (is_report (change_active js next p).1 ≡ true)
  unfolding change_active clear_timer
  change_active_lem true p h = ground (
    arith,
    advance-IsOrdinary (clear_timer js (record p { active = true; generation = suc p.generation })),
  )
  change_active_lem false p h = ground arith

  pub dispose_player_lem :
      (p : Player js)
      → ((dispose_player js p).0.disposed ≡ true) × (is_report (dispose_player js p).1 ≡ true)
  unfolding dispose_player change_active
  dispose_player_lem p = (refl, ground arith)

  module _ (numbers : EqualIsNotAbove js) where
    -- A player that is not active reports nothing when a timer fires or a download settles.
    pub step_idle :
        (e : Event js) (p : Player js)
        → is_outside e ≡ true
        → IsSound js p
        → p.active ≡ false
        → (step js e p).1 ≡ []
    unfolding step
    step_idle (set_active next) p h s idle = absurd (cc)
    step_idle dispose p h s idle = absurd (cc)
    step_idle (timer_fires i) p h s idle = unfold fire advance in ground arith
    step_idle (settles i result) p h s idle = elim (Option-cases (get_elem? p.flights i)) [
      | inl e ↦ rw (settle_missing js numbers i result p e) refl
      | inr (f, e) ↦ elim (now_or_stale js numbers f p) [
        | inl now ↦
            let (on, still) = busy js numbers p s (current_one js numbers i p e now s.driven) in
            absurd (cc)
        | inr late ↦
            rw
              (
                settle_current js numbers i result p e,
                resume_stale js numbers f result (taken js numbers i p) late,
              )
              refl
      ]
    ]
