-- ===== src/Driver/Lidar/Angles.antt =====
-- lidarFrame.ts, normalizeAngleRadians: one turn is enough for two headings that differ by no more.
use sih.Prelude.{ℕ, zero, suc, ◌≡◌, refl, ◌∙◌, true, false, some, Bool-cases, inl, inr}
use sih.Prelude.Runtime.{Runtime}
use sih.State.World.{VehiclePose}
use sih.Driver.Lidar.Entities.{turn_down, turn_up, normalize_angle_radians, relative_heading}

module _ (js : Runtime) where
  open js use {Num, decimal, lt, le, neg, add, sub, mul, pi}

  -- `Math.PI * 2`
  abbrev pub turn : Num
  turn = mul pi (decimal 2 0)

  -- The behaviour of IEEE doubles around one turn: what is not above it is not above pi once it is
  -- taken off, what is not below its negative is not below -pi once it is added, and what is above
  -- pi stays above its negative once it is taken off.
  pub record IsTurning : Type 0 where
    pub down : (a : Num) → le a turn ≡ true → lt pi (sub a turn) ≡ false
    pub up : (a : Num) → le (neg turn) a ≡ true → lt (add a turn) (neg pi) ≡ false
    pub above : (a : Num) → lt pi a ≡ true → le (neg turn) (sub a turn) ≡ true

  down_stays : (fuel : ℕ) (a : Num) → lt pi a ≡ false → turn_down js fuel a ≡ some a
  unfolding turn_down
  down_stays zero a h = rw h refl
  down_stays (suc fuel) a h = rw h refl

  up_stays : (fuel : ℕ) (a : Num) → lt a (neg pi) ≡ false → turn_up js fuel a ≡ some a
  unfolding turn_up
  up_stays zero a h = rw h refl
  up_stays (suc fuel) a h = rw h refl

  down_turns :
      (fuel : ℕ) (a : Num)
      → lt pi a ≡ true
      → turn_down js (suc fuel) a ≡ turn_down js fuel (sub a turn)
  unfolding turn_down
  down_turns fuel a h = rw h refl

  up_turns :
      (fuel : ℕ) (a : Num)
      → lt a (neg pi) ≡ true
      → turn_up js (suc fuel) a ≡ turn_up js fuel (add a turn)
  unfolding turn_up
  up_turns fuel a h = rw h refl

  -- The angle between two vehicles is at most one turn.
  abbrev pub IsWithinTurn : VehiclePose js → VehiclePose js → Type 0
  IsWithinTurn own peer =
      (le (relative_heading js own peer) turn ≡ true)
      × (le (neg turn) (relative_heading js own peer) ≡ true)

  module _ (laws : IsTurning) (fuel : ℕ) where
    one_down :
        (a : Num)
        → le a turn ≡ true
        → le (neg turn) a ≡ true
        → (b : Num) × (turn_down js (suc fuel) a ≡ some b) × (le (neg turn) b ≡ true)
    one_down a high low = elim (Bool-cases (lt pi a)) [
      | inr e ↦ (a, down_stays (suc fuel) a e, low)
      | inl e ↦ (
        sub a turn,
        down_turns fuel a e ∙ down_stays fuel (sub a turn) (laws.down a high),
        laws.above a e,
      )
    ]

    one_up : (a : Num) → le (neg turn) a ≡ true → (b : Num) × (turn_up js (suc fuel) a ≡ some b)
    one_up a low = elim (Bool-cases (lt a (neg pi))) [
      | inr e ↦ (a, up_stays (suc fuel) a e)
      | inl e ↦ (add a turn, up_turns fuel a e ∙ up_stays fuel (add a turn) (laws.up a low))
    ]

    -- An angle of at most one turn is brought into its range by one turn.
    pub normalize_ends :
        (a : Num)
        → le a turn ≡ true
        → le (neg turn) a ≡ true
        → (b : Num) × (normalize_angle_radians js (suc fuel) a ≡ some b)
    unfolding normalize_angle_radians
    normalize_ends a high low =
        let (down, e, within) = one_down a high low in
        let (up, f) = one_up down within in (up, rw (e, f, normalize_angle_radians) refl)
