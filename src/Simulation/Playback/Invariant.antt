-- ===== src/Simulation/Playback/Invariant.antt =====
-- demoPlayback.ts: what holds of a player between two events, and that every piece keeps it.
use sih.Prelude.{ℕ, ◌+◌, ◌≤◌, ◌<◌, ◌≡◌, Bool, true, false, Option, none, some, length, ◌==◌, All}
use sih.Prelude.Counting.{count_if}
use sih.Prelude.Runtime.{Runtime}
use sih.Prelude.Value.{Value}
use sih.Simulation.Manifest.{Chunk, DemoManifest}
use sih.Simulation.Frames.{is_simulated_frame}
use sih.Simulation.Playback.{
  Stage, manifest_stage, chunk_stage, Flight, Output, on_world, on_connection, Player, Outcome,
  first_retry_ms, last_retry_ms,
}

module _ (js : Runtime) where
  open js use {Num, lt, decimal}

  -- A manifest has chunks, and each is meant to hold at least one frame.
  abbrev pub IsFilled : Chunk js → Type 0
  IsFilled chunk = lt (decimal 0 0) chunk.frames ≡ true

  pub record IsPlayable (m : DemoManifest js) : Type 0 where
    pub some_chunk : 0 < length m.chunks
    pub filled : All IsFilled m.chunks

  abbrev pub IsShown : Value Num → Type 0
  IsShown frame = is_simulated_frame js frame ≡ true

  abbrev pub is_current : ℕ → Flight js → Bool
  is_current generation f = f.token == generation

  abbrev pub IsAwaitable : Stage js → Type 0
  IsAwaitable manifest_stage = Unit
  IsAwaitable (chunk_stage chunk) = IsFilled chunk

  -- A call belongs to the present generation or an earlier one.
  abbrev pub IsIssued : ℕ → Flight js → Type 0
  IsIssued generation f = (f.token ≤ generation) × IsAwaitable f.stage

  -- A call of the present generation waits for the manifest only while there is none.
  abbrev pub IsFirst : Option (DemoManifest js) → Stage js → Type 0
  IsFirst manifest manifest_stage = manifest ≡ none
  IsFirst manifest (chunk_stage chunk) = Unit

  abbrev pub IsEarly : Option (DemoManifest js) → ℕ → Flight js → Type 0
  IsEarly manifest generation f = f.token ≡ generation → IsFirst manifest f.stage

  abbrev pub HasManifest : Option (DemoManifest js) → ℕ → Type 0
  HasManifest none chunk_index = chunk_index ≡ 0
  HasManifest (some m) chunk_index = IsPlayable m × (chunk_index < length m.chunks)

  -- What will make the player go on: timers, and calls of the present generation.
  abbrev pub drivers : Player js → ℕ
  drivers p = count_if (is_current p.generation) p.flights + length p.timers

  -- The invariant, for a player with `n` things that will make it go on.
  pub record IsDriven (n : ℕ) (p : Player js) : Type 0 where
    pub driven : drivers p ≡ n
    pub issued : All (IsIssued p.generation) p.flights
    pub early : All (IsEarly p.manifest p.generation) p.flights
    pub held : All (λ t. p.timer ≡ some t.handle) p.timers
    pub playable : HasManifest p.manifest p.chunk_index
    pub shown : All IsShown p.frames
    pub slow : (first_retry_ms ≤ p.retry_ms) × (p.retry_ms ≤ last_retry_ms)

  abbrev pub one_if : Bool → ℕ
  one_if true = 1
  one_if false = 0

  -- An active player has exactly one thing that will make it go on, and an idle one none; a
  -- disposed player is not active.
  pub record IsSound (p : Player js) : Type 0 where
    pub driven : IsDriven (one_if p.active) p
    pub stopped : p.disposed ≡ true → p.active ≡ false

  -- Frames that are reported exist, pass the message test and are simulated.
  abbrev pub IsGood : Output js → Type 0
  IsGood (on_world none) = ⊥
  IsGood (on_world (some frame)) = IsShown frame
  IsGood (on_connection c) = Unit

  -- An outcome with one thing more that will make the player go on, and only good reports; the
  -- switches are those of the player before.
  pub record GoesOn (p : Player js) (o : Outcome js) : Type 0 where
    pub driven : IsDriven 1 o.0
    pub active : o.0.active ≡ p.active
    pub disposed : o.0.disposed ≡ p.disposed
    pub good : All IsGood o.1
