-- ===== src/State/Telemetry/Socket/Laws.antt =====
-- useTelemetry.ts: what the socket's effect guarantees over every sequence of events.
use sih.Prelude.{
  ℕ, ◌+◌, ◌-◌, ◌≡◌, refl, sym, ap, ◌∙◌, subst, Bool, true, false, not, ◌&&◌, ◌||◌, [], ◌∷◌, Option,
  none, some, All, any, arith, if◌then◌else◌, is_some, ◌==◌, Bool-cases, Option-cases, inl, inr,
  find, ltb,
}
use sih.Prelude.Runtime.{Runtime}
use sih.Prelude.Value.{Value}
use sih.State.Connection.{disconnected}
use sih.State.Snapshot.World.{is_world_state_snapshot}
use sih.Simulation.Manifest.{is_truthy}
use sih.State.Telemetry.Socket.{
  Action, reconnect, quiet, lost, Timer, is_at, without, Telemetry, on_connection, closes,
  set_stale_timer, arm_stale_timer, apply_world, retry_later, first_telemetry_timeout_ms,
  telemetry_stale_ms, first_retry_ms, world_answered, on_open, accept, receive, on_message,
  on_close, act, fire, visibility_changed, disconnect, end_effect,
}
use sih.State.Telemetry.Socket.Invariant.{
  is_retry, is_reconnect, IsTidy, IsSound, IsGood, Keeps, is_alive,
}
use sih.State.Telemetry.Socket.Timers.{
  retry-fired, IsOrderly-without, IsOrderly-stale, IsOrderly-retry,
}
use sih.State.Telemetry.Socket.Steps.{
  apply_world-IsTidy, apply_world-IsGood, arm_stale_timer-IsTidy, retry-arm_stale_timer,
  connect-Keeps,
}

module _ (js : Runtime) where
  open js use {Num}

  same : (t : Telemetry js) → IsSound js t → Keeps js (t, [])
  same t s = record { sound = s; good = tt }

  pub world_answered-Keeps :
      (world : Option (Value Num)) (now : ℕ) (t : Telemetry js)
      → IsSound js t
      → Keeps js (world_answered js world now t)
  unfolding world_answered
  world_answered-Keeps none now t s = same t s
  world_answered-Keeps (some world) now t s =
      elim (Bool-cases (not t.disposed && is_truthy js world && is_world_state_snapshot js world)) [
        | inr e ↦ rw (e, world_answered) (same t s)
        | inl e ↦
            let good : is_world_state_snapshot js world ≡ true = ground arith in
            rw (e, world_answered)
              record {
                sound = record {
                  tidy = apply_world-IsTidy js now world t good s.tidy;
                  alive = unfold apply_world in s.alive;
                };
                good = apply_world-IsGood js now world t good s.tidy;
              }
      ]

  pub on_open-Keeps : (i : ℕ) (t : Telemetry js) → IsSound js t → Keeps js (on_open js i t)
  unfolding on_open
  on_open-Keeps i t s = elim (Bool-cases (is_at t.socket i)) [
    | inr e ↦ rw (e, on_open) (same t s)
    | inl e ↦
        rw (e, on_open)
          record {
            sound = record {
              tidy = arm_stale_timer-IsTidy js i first_telemetry_timeout_ms t s.tidy;
              alive = armed;
            };
            good = tt;
          }
  ]
    where
      armed :
          ((arm_stale_timer js i first_telemetry_timeout_ms t).disposed
            || is_alive js (arm_stale_timer js i first_telemetry_timeout_ms t))
          ≡ true
      armed =
          ap (λ b. t.disposed || (is_some t.socket || b))
            (retry-arm_stale_timer js i first_telemetry_timeout_ms t s.tidy)
          ∙ s.alive

  accept-Keeps :
      (i : ℕ) (world : Value Num) (now : ℕ) (t : Telemetry js)
      → is_world_state_snapshot js world ≡ true
      → IsSound js t
      → Keeps js (accept js i world now t)
  unfolding accept
  accept-Keeps i world now t good s = record {
    sound = record {
      tidy = arm_stale_timer-IsTidy js i telemetry_stale_ms fresh fresh-IsTidy;
      alive =
          ap (λ b. fresh.disposed || (is_some fresh.socket || b))
            (retry-arm_stale_timer js i telemetry_stale_ms fresh fresh-IsTidy)
          ∙ (unfold apply_world in s.alive);
    };
    good = apply_world-IsGood js now world t good s.tidy;
  }
    where
      applied : IsTidy js (apply_world js now world t).0
      applied = apply_world-IsTidy js now world t good s.tidy

      fresh : Telemetry js
      fresh = record (apply_world js now world t).0 { retry_ms = first_retry_ms }

      fresh-IsTidy : IsTidy js fresh
      fresh-IsTidy = record {
        orderly = applied.orderly;
        ended = applied.ended;
        mapped = applied.mapped;
        slow = (omega arith, omega arith);
      }

  reject-Keeps :
      (i : ℕ) (t : Telemetry js)
      → IsSound js t
      → Keeps js (t, on_connection disconnected ∷ closes i ∷ [])
  reject-Keeps i t s = record { sound = s; good = (tt, (tt, tt)) }

  receive-Keeps :
      (i : ℕ) (world : Option (Value Num)) (now : ℕ) (t : Telemetry js)
      → IsSound js t
      → Keeps js (receive js i world now t)
  unfolding receive
  receive-Keeps i none now t s = reject-Keeps i t s
  receive-Keeps i (some world) now t s = elim (Bool-cases (is_world_state_snapshot js world)) [
    | inl e ↦ rw (e, receive) (accept-Keeps i world now t e s)
    | inr e ↦ rw (e, receive) (reject-Keeps i t s)
  ]

  pub on_message-Keeps :
      (i : ℕ) (world : Option (Value Num)) (now : ℕ) (t : Telemetry js)
      → IsSound js t
      → Keeps js (on_message js i world now t)
  unfolding on_message
  on_message-Keeps i world now t s = elim (Bool-cases (not (is_at t.socket i) || t.disposed)) [
    | inl e ↦ rw (e, on_message) (same t s)
    | inr e ↦ rw (e, on_message) (receive-Keeps i world now t s)
  ]

  -- The effect without its socket, and with its timer of silence cleared.
  abbrev left : Telemetry js → Telemetry js
  left t = record t { socket = none; timers = without t.stale_timer t.timers }

  left-IsTidy : (t : Telemetry js) → IsTidy js t → IsTidy js (left t)
  left-IsTidy t h = record {
    orderly = IsOrderly-without t.stale_timer t.stale_timer t.next_id t.timers h.orderly;
    ended = λ _. refl;
    mapped = h.mapped;
    slow = h.slow;
  }

  set_stale_timer-IsTidy :
      (a : Action) (d : ℕ) (t : Telemetry js)
      → is_reconnect a ≡ false
      → IsTidy js t
      → IsTidy js (set_stale_timer js a d t)
  unfolding set_stale_timer
  set_stale_timer-IsTidy a d t e h = record {
    orderly = IsOrderly-stale t.stale_timer t.next_id d a t.timers e h.orderly;
    ended = h.ended;
    mapped = h.mapped;
    slow = h.slow;
  }

  -- A planned reconnection keeps the effect alive.
  retry_later-IsSound : (t : Telemetry js) → IsTidy js t → IsSound js (retry_later js t)
  unfolding retry_later any
  retry_later-IsSound t h = record {
    tidy = record {
      orderly = IsOrderly-retry t.stale_timer t.next_id t.retry_ms t.timers h.orderly;
      ended = h.ended;
      mapped = h.mapped;
      slow = omega (arith, h.slow);
    };
    alive = ground arith;
  }

  pub on_close-Keeps :
      (i now : ℕ) (t : Telemetry js) → IsSound js t → Keeps js (on_close js i now t)
  unfolding on_close
  on_close-Keeps i now t s = elim (Bool-cases (not (is_at t.socket i) || t.disposed)) [
    | inl e ↦ rw (e, on_close) (same t s)
    | inr e ↦
        elim (Bool-cases (ltb 0 t.last_data_ms && ltb now (t.last_data_ms + telemetry_stale_ms))) [
          | inl f ↦
              rw (e, f, on_close)
                record {
                  sound =
                      retry_later-IsSound
                        (set_stale_timer js lost (telemetry_stale_ms + t.last_data_ms - now)
                          (left t))
                        (set_stale_timer-IsTidy lost (telemetry_stale_ms + t.last_data_ms - now)
                          (left t) refl (left-IsTidy t s.tidy));
                  good = tt;
                }
          | inr f ↦
              rw (e, f, on_close)
                record {
                  sound = retry_later-IsSound (left t) (left-IsTidy t s.tidy);
                  good = (tt, tt);
                }
        ]
  ]

  -- The effect once a timer has fired.
  abbrev pub fired : ℕ → Telemetry js → Telemetry js
  fired i t = record t { timers = without (some i) t.timers }

  fired-IsTidy : (i : ℕ) (t : Telemetry js) → IsTidy js t → IsTidy js (fired i t)
  fired-IsTidy i t h = record {
    orderly = IsOrderly-without (some i) t.stale_timer t.next_id t.timers h.orderly;
    ended = h.ended;
    mapped = h.mapped;
    slow = h.slow;
  }

  fired-IsSound :
      (i : ℕ) (t : Telemetry js) {x : Timer}
      → IsSound js t
      → find (λ y. y.handle == i) t.timers ≡ some x
      → is_retry x ≡ false
      → IsSound js (fired i t)
  fired-IsSound i t s e plain = record {
    tidy = fired-IsTidy i t s.tidy;
    alive =
        ap (λ b. t.disposed || (is_some t.socket || b))
          (retry-fired i t.timers s.tidy.orderly.distinct e plain)
        ∙ s.alive;
  }

  maybe-IsGood : (b : Bool) → All (IsGood js) (if b then on_connection disconnected ∷ [] else [])
  maybe-IsGood true = (tt, tt)
  maybe-IsGood false = tt

  pub fire_missing :
      (i : ℕ) (t : Telemetry js) → find (λ y. y.handle == i) t.timers ≡ none → fire js i t ≡ (t, [])
  unfolding fire
  fire_missing i t e = rw (e, fire) refl

  pub fire_found :
      (i : ℕ) (t : Telemetry js) {x : Timer}
      → find (λ y. y.handle == i) t.timers ≡ some x
      → fire js i t ≡ act js x.action (fired i t)
  unfolding fire
  fire_found i t e = rw (e, fire) refl

  act-Keeps :
      (a : Action) (i : ℕ) (t : Telemetry js)
      → IsSound js t
      → (is_reconnect a ≡ false → IsSound js (fired i t))
      → Keeps js (act js a (fired i t))
  unfolding act
  act-Keeps reconnect i t s plain = connect-Keeps js (fired i t) (fired-IsTidy i t s.tidy)
  act-Keeps (quiet j) i t s plain = record {
    sound = plain refl;
    good = maybe-IsGood (is_at t.socket j);
  }
  act-Keeps lost i t s plain = record {
    sound = plain refl;
    good = maybe-IsGood (not (is_some t.socket) && not t.disposed);
  }

  pub fire-Keeps : (i : ℕ) (t : Telemetry js) → IsSound js t → Keeps js (fire js i t)
  fire-Keeps i t s = elim (Option-cases (find (λ y. y.handle == i) t.timers)) [
    | inl e ↦ subst (Keeps js) (sym (fire_missing i t e)) (same t s)
    | inr (x, e) ↦
        subst (Keeps js) (sym (fire_found i t e))
          (act-Keeps x.action i t s (λ plain. fired-IsSound i t s e plain))
  ]

  pub visibility_changed-Keeps :
      (hidden : Bool) (t : Telemetry js) → IsSound js t → Keeps js (visibility_changed js hidden t)
  unfolding visibility_changed
  visibility_changed-Keeps hidden t s =
      elim (Bool-cases (not t.disposed && not hidden && not (is_some t.socket))) [
        | inl e ↦ rw (e, visibility_changed) (connect-Keeps js t s.tidy)
        | inr e ↦ rw (e, visibility_changed) (same t s)
      ]

  pub end_effect-Keeps : (t : Telemetry js) → IsSound js t → Keeps js (end_effect js t)
  unfolding end_effect disconnect
  end_effect-Keeps t s = record {
    sound = record {
      tidy = record {
        orderly =
            IsOrderly-without t.stale_timer t.stale_timer t.next_id (without t.retry_timer t.timers)
              (IsOrderly-without t.retry_timer t.stale_timer t.next_id t.timers s.tidy.orderly);
        ended = λ _. refl;
        mapped = s.tidy.mapped;
        slow = s.tidy.slow;
      };
      alive = refl;
    };
    good = closing t.socket;
  }
    where
      closing : (o : Option ℕ) → All (IsGood js) (elim o [ none ↦ [] | some i ↦ closes i ∷ [] ])
      closing none = tt
      closing (some i) = (tt, tt)
