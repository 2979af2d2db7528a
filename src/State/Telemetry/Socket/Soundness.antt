-- ===== src/State/Telemetry/Socket/Soundness.antt =====
-- useTelemetry.ts: the promises of the socket's effect over every sequence of events.
use sih.Prelude.{
  ℕ, ◌≤◌, ◌≡◌, refl, sym, ap, ◌∙◌, subst, true, false, List, [], ◌∷◌, Option, none, some, All,
  All-append, any, arith, is_some, ◌==◌, Bool-cases, Option-cases, inl, inr, find, find_sound,
  All-mem, Memᴰ, ◌⊎◌,
}
use sih.Prelude.Runtime.{Runtime}
use sih.Prelude.Value.{Value}
use sih.State.Snapshot.Scene.{has_reference_map_shape}
use sih.State.Snapshot.Basics.{is_null}
use sih.State.Telemetry.Socket.{
  Action, reconnect, quiet, lost, Timer, Telemetry, Outcome, Output, on_world, on_connection, opens,
  closes, set_stale_timer, arm_stale_timer, connect, world_answered, on_open, on_message, on_close,
  act, fire, visibility_changed, disconnect, end_effect, step, run, start, mounted, Event, answered,
  opened, message, errored, closed, timer_fires, visible, unmount,
}
use sih.State.Telemetry.Socket.Invariant.{
  is_retry, is_reconnect, IsDistinct, IsTidy, IsSound, IsGood, Keeps,
}
use sih.State.Telemetry.Socket.Steps.{connect-Keeps}
use sih.State.Telemetry.Socket.Laws.{
  world_answered-Keeps, on_open-Keeps, on_message-Keeps, on_close-Keeps, fire-Keeps,
  visibility_changed-Keeps, end_effect-Keeps, fire_missing, fire_found, fired,
}

-- Among timers with distinct handles, one of reconnection is found by its handle.
retry-found :
    (ts : List Timer)
    → any is_retry ts ≡ true
    → IsDistinct ts
    → (x : Timer) × (find (λ y. y.handle == x.handle) ts ≡ some x) × (is_retry x ≡ true)
unfolding any find
retry-found [] h d = absurd (cc)
retry-found (t ∷ ts) h (new, d) = elim (Bool-cases (is_retry t)) [
  | inl e ↦ (t, ground arith, e)
  | inr e ↦
      let (x, found, good) = retry-found ts (ground arith) d in
      let (hit, m) = find_sound (λ y. y.handle == x.handle) ts found in
      let other : (x.handle == t.handle) ≡ false =
        All-mem (λ u. (u.handle == t.handle) ≡ false) ts new m in
      (x, ground (arith, found), good)
]

module _ (js : Runtime) where
  open js use {Num}

  step-Keeps : (e : Event js) (t : Telemetry js) → IsSound js t → Keeps js (step js e t)
  unfolding step
  step-Keeps (answered world now) t s = world_answered-Keeps js world now t s
  step-Keeps (opened i) t s = on_open-Keeps js i t s
  step-Keeps (message i world now) t s = on_message-Keeps js i world now t s
  step-Keeps (errored i) t s = record { sound = s; good = (tt, tt) }
  step-Keeps (closed i now) t s = on_close-Keeps js i now t s
  step-Keeps (timer_fires i) t s = fire-Keeps js i t s
  step-Keeps (visible hidden) t s = visibility_changed-Keeps js hidden t s
  step-Keeps unmount t s = end_effect-Keeps js t s

  pub run-Keeps : (es : List (Event js)) (t : Telemetry js) → IsSound js t → Keeps js (run js es t)
  unfolding run
  run-Keeps [] t s = record { sound = s; good = tt }
  run-Keeps (e ∷ es) t s =
      let (after, outputs) = step js e t in
      let k = step-Keeps e t s in
      let later = run-Keeps es after k.sound in
      record {
        sound = later.sound;
        good = All-append (IsGood js) outputs (run js es after).1 k.good later.good;
      }

  start-IsTidy : IsTidy js (start js)
  unfolding start has_reference_map_shape is_null
  start-IsTidy = record {
    orderly = record { issued = tt; known = tt; distinct = tt; apart = tt };
    ended = λ gone. refl;
    mapped = refl;
    slow = (omega arith, omega arith);
  }

  pub mounted-IsSound : IsSound js (mounted js)
  unfolding mounted
  mounted-IsSound = (connect-Keeps js (start js) start-IsTidy).sound

  -- Every world that the hook reports passes the test on messages, the map it has been given
  -- included.
  pub run_reported_worlds : (es : List (Event js)) → All (IsGood js) (run js es (mounted js)).1
  run_reported_worlds es = (run-Keeps es (mounted js) mounted-IsSound).good

  -- The wait before the next attempt to connect stays between 1.2 and 2 seconds.
  pub run_reconnect_delay :
      (es : List (Event js))
      → let t = (run js es (mounted js)).0 in (1200 ≤ t.retry_ms) × (t.retry_ms ≤ 2000)
  run_reconnect_delay es = (run-Keeps es (mounted js) mounted-IsSound).sound.tidy.slow

  connect_opens : (t : Telemetry js) → t.disposed ≡ false → is_some (connect js t).0.socket ≡ true
  unfolding connect arm_stale_timer set_stale_timer
  connect_opens t e = elim (Bool-cases (is_some t.socket)) [
    | inl f ↦ rw (e, f, connect) f
    | inr f ↦ rw (e, f, connect) refl
  ]

  fire_opens :
      (t : Telemetry js) (x : Timer)
      → t.disposed ≡ false
      → find (λ y. y.handle == x.handle) t.timers ≡ some x
      → is_retry x ≡ true
      → is_some (fire js x.handle t).0.socket ≡ true
  fire_opens t x e found retry =
      ap (λ (o : Outcome js). is_some o.0.socket) (fire_found js x.handle t found)
      ∙ acts x.action retry
    where
      acts :
          (a : Action)
          → is_reconnect a ≡ true
          → is_some (act js a (fired js x.handle t)).0.socket ≡ true
      acts reconnect r = unfold act in connect_opens (fired js x.handle t) e
      acts (quiet j) r = absurd (cc)
      acts lost r = absurd (cc)

  -- What the hook counts on while it is mounted: a socket, or a pending timer of reconnection that
  -- opens one when it fires.
  abbrev pub IsRecovering : Telemetry js → Type 0
  IsRecovering t =
      (is_some t.socket ≡ true)
      ⊎ ((x : Timer) × Memᴰ x t.timers
          × (x.action ≡ reconnect)
          × (is_some (step js (timer_fires x.handle) t).0.socket ≡ true))

  is_reconnect-eq : (a : Action) → is_reconnect a ≡ true → a ≡ reconnect
  is_reconnect-eq reconnect h = refl
  is_reconnect-eq (quiet j) h = absurd (cc)
  is_reconnect-eq lost h = absurd (cc)

  recovers : (t : Telemetry js) → IsSound js t → t.disposed ≡ false → IsRecovering t
  recovers t s e = elim (Bool-cases (is_some t.socket)) [
    | inl here ↦ inl here
    | inr away ↦
        let (x, found, retry) =
          retry-found t.timers (ground (arith, s.alive)) s.tidy.orderly.distinct in
        let (hit, m) = find_sound (λ y. y.handle == x.handle) t.timers found in
        inr (x, m, is_reconnect-eq x.action retry, (unfold step in fire_opens t x e found retry))
  ]

  -- After any sequence of events that leaves the hook mounted, it has a socket already, or there
  -- is a pending timer of reconnection, and when that fires the hook opens one.
  pub run_recovers :
      (es : List (Event js))
      → (run js es (mounted js)).0.disposed ≡ false
      → IsRecovering (run js es (mounted js)).0
  run_recovers es e =
      recovers (run js es (mounted js)).0 (run-Keeps es (mounted js) mounted-IsSound).sound e

  -- The page is not told of anything: sockets may still be closed.
  abbrev pub IsQuiet : Output js → Type 0
  IsQuiet (on_world world) = ⊥
  IsQuiet (on_connection c) = ⊥
  IsQuiet (opens i) = ⊥
  IsQuiet (closes i) = Unit

  -- What an ended effect does: nothing is reported, and it stays ended.
  record StaysEnded (o : Outcome js) : Type 0 where
    silent : All IsQuiet o.1
    ended : o.0.disposed ≡ true

  unchanged : (t : Telemetry js) → t.disposed ≡ true → StaysEnded (t, [])
  unchanged t e = record { silent = tt; ended = e }

  stays : (o : Outcome js) (t : Telemetry js) → o ≡ (t, []) → t.disposed ≡ true → StaysEnded o
  stays o t same h = subst StaysEnded (sym same) (unchanged t h)

  act_ended :
      (a : Action) (t : Telemetry js)
      → t.disposed ≡ true
      → t.socket ≡ none
      → StaysEnded (act js a t)
  unfolding act
  act_ended reconnect t e gone = stays (connect js t) t (unfold connect in ground arith) e
  act_ended (quiet j) t e gone = stays (act js (quiet j) t) t (ground arith) e
  act_ended lost t e gone = stays (act js lost t) t (ground arith) e

  answered_ended :
      (world : Option (Value Num)) (now : ℕ) (t : Telemetry js)
      → t.disposed ≡ true
      → world_answered js world now t ≡ (t, [])
  unfolding world_answered
  answered_ended none now t h = refl
  answered_ended (some world) now t h = ground arith

  step_ended :
      (e : Event js) (t : Telemetry js)
      → IsSound js t
      → t.disposed ≡ true
      → StaysEnded (step js e t)
  unfolding step
  step_ended (answered world now) t s h =
      stays (world_answered js world now t) t (answered_ended world now t h) h
  step_ended (opened i) t s h =
      let gone = s.tidy.ended h in stays (on_open js i t) t (unfold on_open in ground arith) h
  step_ended (message i world now) t s h =
      stays (on_message js i world now t) t (unfold on_message in ground arith) h
  step_ended (errored i) t s h = record { silent = (tt, tt); ended = h }
  step_ended (closed i now) t s h =
      stays (on_close js i now t) t (unfold on_close in ground arith) h
  step_ended (timer_fires i) t s h = elim (Option-cases (find (λ y. y.handle == i) t.timers)) [
    | inl e ↦ subst StaysEnded (sym (fire_missing js i t e)) (unchanged t h)
    | inr (x, e) ↦
        subst StaysEnded (sym (fire_found js i t e))
          (act_ended x.action (fired js i t) h (s.tidy.ended h))
  ]
  step_ended (visible hidden) t s h =
      stays (visibility_changed js hidden t) t (unfold visibility_changed in ground arith) h
  step_ended unmount t s h =
      unfold end_effect disconnect in record { silent = closing t.socket; ended = refl }
    where
      closing : (o : Option ℕ) → All IsQuiet (elim o [ none ↦ [] | some i ↦ closes i ∷ [] ])
      closing none = tt
      closing (some i) = (tt, tt)

  -- A hook that is in a sound state and has ended reports nothing and opens no socket, whatever
  -- still happens.
  pub run_ended :
      (es : List (Event js)) (t : Telemetry js)
      → IsSound js t
      → t.disposed ≡ true
      → All IsQuiet (run js es t).1
  unfolding run
  run_ended [] t s h = tt
  run_ended (e ∷ es) t s h =
      let k = step_ended e t s h in
      All-append IsQuiet (step js e t).1 (run js es (step js e t).0).1 k.silent
        (run_ended es (step js e t).0 (step-Keeps e t s).sound k.ended)
