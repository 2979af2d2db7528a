-- ===== src/State/Telemetry/Socket/Steps.antt =====
-- useTelemetry.ts: the world that is reported, and the calls that the callbacks share.
use sih.Prelude.{
  ℕ, suc, ◌≡◌, refl, Bool, true, false, ◌||◌, [], ◌∷◌, ◌++◌, some, All, any, arith, if◌then◌else◌,
  is_some, ◌===◌, ◌==◌, Bool-cases, inl, inr,
}
use sih.Prelude.Runtime.{Runtime}
use sih.Prelude.Value.{Value, object, Fields, prop, assign, member-assign}
use sih.State.Connection.{connecting}
use sih.State.Snapshot.Basics.{is_record}
use sih.State.Snapshot.Scene.{has_reference_map_shape}
use sih.State.Snapshot.World.{is_world_state_snapshot}
use sih.State.Snapshot.Shape.Laws.{and-split}
use sih.State.Telemetry.Socket.{
  quiet, without, Telemetry, on_connection, opens, set_stale_timer, arm_stale_timer, map_key_of,
  with_map, apply_world, connect, first_telemetry_timeout_ms,
}
use sih.State.Telemetry.Socket.Invariant.{is_retry, IsTidy, IsGood, Keeps}
use sih.State.Telemetry.Socket.Timers.{
  retry-without, IsOrderly-without, IsOrderly-next, IsOrderly-stale,
}

module _ (js : Runtime) where
  open js use {Num}

  -- A snapshot with another valid map in place of its own is a snapshot.
  snapshot-with_map_fields :
      (map : Value Num) (fs : Fields Num)
      → is_world_state_snapshot js (object fs) ≡ true
      → has_reference_map_shape js map ≡ true
      → is_world_state_snapshot js (object (assign "reference_map" map fs)) ≡ true
  unfolding is_world_state_snapshot prop is_record
  snapshot-with_map_fields map fs h m =
      let facts = simp and-split at h in
      simp (member-assign {N = Num}, and-split) (assumption (facts, m))

  snapshot-with_map :
      (map world : Value Num)
      → is_world_state_snapshot js world ≡ true
      → has_reference_map_shape js map ≡ true
      → is_world_state_snapshot js (with_map js map world) ≡ true
  unfolding with_map
  snapshot-with_map map (object fs) h m = snapshot-with_map_fields map fs h m
  snapshot-with_map map _ h m = h

  map-of_snapshot :
      (world : Value Num)
      → is_world_state_snapshot js world ≡ true
      → has_reference_map_shape js (prop world "reference_map") ≡ true
  unfolding is_world_state_snapshot
  map-of_snapshot world h = let facts = simp and-split at h in assumption facts

  -- The map that is kept.
  abbrev kept_map : Value Num → Telemetry js → Value Num
  kept_map world t =
      if map_key_of js (prop world "reference_map") === t.map_key
      then t.reference_map
      else prop world "reference_map"

  kept_map-has_shape :
      (world : Value Num) (t : Telemetry js)
      → is_world_state_snapshot js world ≡ true
      → IsTidy js t
      → has_reference_map_shape js (kept_map world t) ≡ true
  kept_map-has_shape world t h s =
      elim (Bool-cases (map_key_of js (prop world "reference_map") === t.map_key)) [
        | inl e ↦ rw e s.mapped
        | inr e ↦ rw e (map-of_snapshot world h)
      ]

  -- A change of the variables that the timers do not read.
  pub apply_world-IsTidy :
      (now : ℕ) (world : Value Num) (t : Telemetry js)
      → is_world_state_snapshot js world ≡ true
      → IsTidy js t
      → IsTidy js (apply_world js now world t).0
  unfolding apply_world
  apply_world-IsTidy now world t h s = record {
    orderly = s.orderly;
    ended = s.ended;
    mapped = kept_map-has_shape world t h s;
    slow = s.slow;
  }

  pub apply_world-IsGood :
      (now : ℕ) (world : Value Num) (t : Telemetry js)
      → is_world_state_snapshot js world ≡ true
      → IsTidy js t
      → All (IsGood js) (apply_world js now world t).1
  unfolding apply_world
  apply_world-IsGood now world t h s =
      (snapshot-with_map (kept_map world t) world h (kept_map-has_shape world t h s), (tt, tt))

  pub arm_stale_timer-IsTidy :
      (s d : ℕ) (t : Telemetry js) → IsTidy js t → IsTidy js (arm_stale_timer js s d t)
  unfolding arm_stale_timer set_stale_timer
  arm_stale_timer-IsTidy s d t h = record {
    orderly =
        IsOrderly-stale t.stale_timer t.next_id d (quiet s) (without t.stale_timer t.timers) refl
          (IsOrderly-without t.stale_timer t.stale_timer t.next_id t.timers h.orderly);
    ended = h.ended;
    mapped = h.mapped;
    slow = h.slow;
  }

  pub retry-arm_stale_timer :
      (s d : ℕ) (t : Telemetry js)
      → IsTidy js t
      → any is_retry (arm_stale_timer js s d t).timers ≡ any is_retry t.timers
  unfolding arm_stale_timer set_stale_timer any
  retry-arm_stale_timer s d t h = retry-without t.stale_timer t.timers h.orderly.apart

  -- A call of `connect` leaves the effect alive, whatever it was.
  pub connect-Keeps : (t : Telemetry js) → IsTidy js t → Keeps js (connect js t)
  unfolding connect
  connect-Keeps t h = elim (Bool-cases (t.disposed || is_some t.socket)) [
    | inl e ↦
        rw (e, connect) record { sound = record { tidy = h; alive = ground arith }; good = tt }
    | inr e ↦
        rw (e, connect)
          record {
            sound = record {
              tidy =
                  arm_stale_timer-IsTidy t.next_id first_telemetry_timeout_ms taken
                    (taken-IsTidy (ground arith));
              alive = unfold arm_stale_timer set_stale_timer in ground arith;
            };
            good = reports (t.last_data_ms == 0);
          }
  ]
    where
      taken : Telemetry js
      taken = record t { socket = some t.next_id; next_id = suc t.next_id }

      taken-IsTidy : t.disposed ≡ false → IsTidy js taken
      taken-IsTidy still = record {
        orderly = IsOrderly-next t.stale_timer t.next_id t.timers h.orderly;
        ended = λ gone. absurd (cc);
        mapped = h.mapped;
        slow = h.slow;
      }

      reports :
          (b : Bool)
          → All
              (IsGood js)
              ((if b then on_connection connecting ∷ [] else []) ++ (opens t.next_id ∷ []))
      reports true = (tt, (tt, tt))
      reports false = (tt, tt)
