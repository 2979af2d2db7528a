-- ===== src/Simulation/Frames.antt =====
-- frontend/src/simulation/demoPlayback.ts, lines 26 to 37: a chunk's frames, each a patch of the one
-- before.
pub mod Laws
use sih.Prelude.{
  ℕ, String, ◌≡◌, Bool, true, false, not, ◌&&◌, ◌||◌, List, [], ◌∷◌, Option, none, some,
  if◌then◌else◌, length,
}
use sih.Prelude.Runtime.{Runtime}
use sih.Prelude.Value.{
  Value, undefined, null, boolean, number, string, array, object, Items, Fields, end, items, prop,
  assign, spread,
}
use sih.State.Snapshot.Basics.{is_text}
use sih.State.Snapshot.World.{is_world_state_snapshot}

module _ (js : Runtime) where
  open js use {Num, eq, decimal, index_fields}

  -- What `...value` spreads into an object.
  abbrev pub own_fields : Value Num → Fields Num
  own_fields (object fs) = fs
  own_fields (array vs) = index_fields (array vs)
  own_fields (string s) = index_fields (string s)
  own_fields _ = end

  -- `{ ...previous, ...patch, reference_map }`
  unfoldable pub patched : Fields Num → Value Num → Value Num → Fields Num
  patched previous patch reference_map =
      assign "reference_map" reference_map (spread previous (own_fields patch))

  unfoldable pub is_simulated_frame : Value Num → Bool
  unfolding is_text
  is_simulated_frame frame =
      is_world_state_snapshot js frame && is_text "SIMULATED" (prop frame "mode")

  abbrev pub prepend : Value Num → Option (List (Value Num)) → Option (List (Value Num))
  prepend frame none = none
  prepend frame (some frames) = some (frame ∷ frames)

  -- The callback of `map`, over the patches that are left; `none` is "Invalid simulated frame".
  unfoldable pub decode_from : Value Num → Fields Num → List (Value Num) → Option (List (Value Num))
  unfolding patched is_simulated_frame
  decode_from reference_map previous [] = some []
  decode_from reference_map previous (patch ∷ patches) =
      let frame = patched previous patch reference_map in
      let rest = decode_from reference_map frame patches in
      if is_simulated_frame (object frame) then prepend (object frame) rest else none

  -- `none` is an error, "Invalid demo chunk" or "Invalid simulated frame".
  unfoldable pub decode_demo_frames : Value Num → Value Num → Num → Option (List (Value Num))
  unfolding decode_from
  decode_demo_frames (array vs) reference_map count =
      if not (eq (decimal (length (items vs)) 0) count)
      then none
      else decode_from reference_map end (items vs)
  decode_demo_frames _ reference_map count = none
