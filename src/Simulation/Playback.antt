-- ===== src/Simulation/Playback.antt =====
-- frontend/src/simulation/demoPlayback.ts, lines 85 to 156: `createDemoPlayback`.
-- The closure's variables and the event loop's part of them are one record. Each event, a call of a
-- method, a timer or a settled promise, is one step; a step returns the callbacks it made, in order.
-- A download that fails, is aborted or times out after 15 s settles with `none`.
pub mod Invariant
pub mod Steps
pub mod Resume
pub mod Laws
pub mod Soundness
pub mod Switches
pub mod Refinement
use sih.Prelude.{
  ℕ, zero, suc, ◌+◌, ◌*◌, ◌%◌, min, Bool, true, false, not, ◌&&◌, ◌||◌, List, [], ◌∷◌, ◌++◌, Option,
  none, some, if◌then◌else◌, length, get_elem?, leb, ◌==◌, filter, any,
}
use sih.Prelude.Runtime.{Runtime}
use sih.Prelude.Value.{Value}
use sih.State.Connection.{ConnectionState, connected, disconnected}
use sih.Simulation.Manifest.{Chunk, DemoManifest, read_demo_manifest}
use sih.Simulation.Frames.{decode_demo_frames}

abbrev pub first_retry_ms : ℕ
first_retry_ms = 1000

abbrev pub last_retry_ms : ℕ
last_retry_ms = 30000

abbrev pub same_flag : Bool → Bool → Bool
same_flag true b = b
same_flag false b = not b

-- The list without its element at an index.
abbrev pub remove_at {ℓ} : {A : Type ℓ} → ℕ → List A → List A
remove_at i [] = []
remove_at zero (x ∷ xs) = xs
remove_at (suc i) (x ∷ xs) = x ∷ remove_at i xs

module _ (js : Runtime) where
  open js use {Num}

  -- What a call of `advance` waits for.
  pub data Stage : Type 0 where
    manifest_stage : Stage
    chunk_stage : Chunk js → Stage

  -- A call of `advance` that stands at an `await`: its `token` and its `controller`.
  pub record Flight : Type 0 where
    pub token : ℕ
    pub controller : ℕ
    pub stage : Stage

  pub data Delay : Type 0 where
    frame_interval : Num → Delay
    retry : ℕ → Delay

  -- A timer of the event loop: its handle, and how long it waits.
  pub record Timer : Type 0 where
    pub handle : ℕ
    pub delay : Delay

  -- `onWorld(world)`, where `none` would be `undefined`, and `onConnection(connection)`.
  pub data Output : Type 0 where
    on_world : Option (Value Num) → Output
    on_connection : ConnectionState → Output

  pub record Player : Type 0 where
    pub active : Bool
    pub disposed : Bool
    pub generation : ℕ
    pub manifest : Option (DemoManifest js)
    pub frames : List (Value Num)
    pub chunk_index : ℕ
    pub frame_index : ℕ
    pub retry_ms : ℕ
    pub timer : Option ℕ
    pub request : Option ℕ
    -- the event loop: fresh handles, timers that have not fired, calls that wait
    pub next_id : ℕ
    pub timers : List Timer
    pub flights : List Flight

  pub data Event : Type 0 where
    set_active : Bool → Event
    dispose : Event
    timer_fires : ℕ → Event
    -- the call at this index goes on, with a value or an error
    settles : ℕ → Option (Value Num) → Event

  abbrev pub Outcome : Type 0
  Outcome = Player × List Output

  unfoldable pub new_player : Player
  new_player = record {
    active = false;
    disposed = false;
    generation = 0;
    manifest = none;
    frames = [];
    chunk_index = 0;
    frame_index = 0;
    retry_ms = first_retry_ms;
    timer = none;
    request = none;
    next_id = 0;
    timers = [];
    flights = [];
  }

  -- `timer = setTimeout(advance, delay)`
  unfoldable pub set_timer : Delay → Player → Player
  set_timer delay p = record p {
    timer = some p.next_id;
    next_id = suc p.next_id;
    timers = record { handle = p.next_id; delay = delay } ∷ p.timers;
  }

  -- `clearTimeout(timer)`
  abbrev pub without : Option ℕ → List Timer → List Timer
  without none timers = timers
  without (some handle) timers = filter (λ t. not (t.handle == handle)) timers

  unfoldable pub clear_timer : Player → Player
  unfolding filter
  clear_timer p = record p { timers = without p.timer p.timers }

  abbrev pub is_request : ℕ → Option ℕ → Bool
  is_request controller none = false
  is_request controller (some c) = c == controller

  -- The `finally` block.
  unfoldable pub finish : ℕ → Player → Player
  finish controller p = record p {
    request = if is_request controller p.request then none else p.request;
  }

  -- The `catch` block.
  unfoldable pub fail : ℕ → ℕ → Player → Outcome
  fail token controller p =
      if not (token == p.generation)
      then (finish controller p, [])
      else let waiting = set_timer (retry p.retry_ms) p in
        let slower = record waiting { retry_ms = min (waiting.retry_ms * 2) last_retry_ms } in
        (finish controller slower, on_connection disconnected ∷ [])

  -- Lines 122 to 126, where `manifest` is `m`.
  unfoldable pub show_frame : DemoManifest js → ℕ → ℕ → Player → Outcome
  show_frame m token controller p =
      if not (token == p.generation)
      then (finish controller p, [])
      else let shown = record p { frame_index = suc p.frame_index; retry_ms = first_retry_ms } in
        (
          finish controller (set_timer (frame_interval m.frame_interval_ms) shown),
          on_world (get_elem? p.frames p.frame_index) ∷ on_connection connected ∷ [],
        )

  -- The call of `advance` waits at an `await`.
  unfoldable pub wait : ℕ → ℕ → Stage → Player → Outcome
  wait token controller stage p =
      let flight : Flight = record { token = token; controller = controller; stage = stage } in
      (record p { flights = flight ∷ p.flights }, [])

  -- Lines 114 to 126. An index outside `manifest.chunks` would throw at `chunk.url`.
  unfoldable pub fetch_or_show : DemoManifest js → ℕ → ℕ → Player → Outcome
  fetch_or_show m token controller p =
      if leb (length p.frames) p.frame_index
      then elim (get_elem? m.chunks p.chunk_index) [
        | none ↦ fail token controller p
        | some chunk ↦ wait token controller (chunk_stage chunk) p
      ]
      else show_frame m token controller p

  -- The body of `advance` up to its first `await`.
  unfoldable pub advance : Player → Outcome
  advance p =
      if not p.active || p.disposed
      then (p, [])
      else let started = record p { request = some p.next_id; next_id = suc p.next_id } in
        elim p.manifest [
          | none ↦ wait p.generation p.next_id manifest_stage started
          | some m ↦ fetch_or_show m p.generation p.next_id started
        ]

  -- Lines 110 to 113, once `loadManifest` has settled.
  unfoldable pub manifest_arrives : ℕ → ℕ → Value Num → Player → Outcome
  manifest_arrives token controller value p = elim (read_demo_manifest js value) [
    | none ↦ fail token controller p
    | some loaded ↦
        if not (token == p.generation)
        then (finish controller p, [])
        else fetch_or_show loaded token controller (record p { manifest = some loaded })
  ]

  -- Lines 117 to 126, once `loadChunk` has settled.
  unfoldable pub chunk_arrives : Chunk js → ℕ → ℕ → Value Num → Player → Outcome
  chunk_arrives chunk token controller data' p =
      if not (token == p.generation) then (finish controller p, []) else elim p.manifest [
        | none ↦ fail token controller p
        | some m ↦ elim (decode_demo_frames js data' m.reference_map chunk.frames) [
          | none ↦ fail token controller p
          | some decoded ↦ show_frame m token controller (record p {
            frames = decoded;
            frame_index = 0;
            chunk_index = suc p.chunk_index % length m.chunks;
          })
        ]
      ]

  abbrev pub resume_with : Stage → ℕ → ℕ → Value Num → Player → Outcome
  resume_with manifest_stage token controller value p = manifest_arrives token controller value p
  resume_with (chunk_stage chunk) token controller value p =
      chunk_arrives chunk token controller value p

  unfoldable pub resume : Flight → Option (Value Num) → Player → Outcome
  resume f none p = fail f.token f.controller p
  resume f (some value) p = resume_with f.stage f.token f.controller value p

  -- `setActive(next)`. Aborting the request makes its download settle with `none` later.
  unfoldable pub change_active : Bool → Player → Outcome
  change_active next p =
      if p.disposed || same_flag p.active next
      then (p, [])
      else let changed = clear_timer (record p { active = next; generation = suc p.generation }) in
        if next then advance changed else (changed, [])

  unfoldable pub dispose_player : Player → Outcome
  dispose_player p =
      let (stopped, outputs) = change_active false p in
      (record stopped { disposed = true; frames = [] }, outputs)

  unfoldable pub fire : ℕ → Player → Outcome
  fire handle p =
      if any (λ t. t.handle == handle) p.timers
      then advance (record p { timers = filter (λ t. not (t.handle == handle)) p.timers })
      else (p, [])

  unfoldable pub settle : ℕ → Option (Value Num) → Player → Outcome
  settle i result p = elim (get_elem? p.flights i) [
    | none ↦ (p, [])
    | some f ↦ resume f result (record p { flights = remove_at i p.flights })
  ]

  unfoldable pub step : Event → Player → Outcome
  step (set_active next) p = change_active next p
  step dispose p = dispose_player p
  step (timer_fires handle) p = fire handle p
  step (settles i result) p = settle i result p

  -- A run of events, with all that the player reported.
  unfoldable pub run : List Event → Player → Outcome
  run [] p = (p, [])
  run (e ∷ es) p =
      let (after, outputs) = step e p in
      let (last, later) = run es after in (last, outputs ++ later)
