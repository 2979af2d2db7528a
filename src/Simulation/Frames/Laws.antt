-- ===== src/Simulation/Frames/Laws.antt =====
-- What a decoded chunk holds.
use sih.Prelude.{
  suc, ◌≡◌, refl, true, List, [], ◌∷◌, Option, none, some, All, length, arith, Bool-cases, inl, inr,
  ap,
}
use sih.Prelude.Runtime.{Runtime}
use sih.Prelude.Value.{Value, array, object, Fields, end, items, prop, spread, member-assign}
use sih.State.Snapshot.Basics.{is_text}
use sih.State.Snapshot.World.{is_world_state_snapshot}
use sih.Simulation.Frames.{
  patched, own_fields, is_simulated_frame, decode_from, decode_demo_frames, prepend,
}

module _ (js : Runtime) where
  open js use {Num, eq, lt, decimal}

  -- A frame that the player may show: a valid world message, simulated, over the manifest's map.
  pub record IsShowable (reference_map frame : Value Num) : Type 0 where
    pub valid : is_world_state_snapshot js frame ≡ true
    pub simulated : is_text "SIMULATED" (prop frame "mode") ≡ true
    pub mapped : prop frame "reference_map" ≡ reference_map

  patched-map :
      (previous : Fields Num) (patch reference_map : Value Num)
      → prop (object (patched js previous patch reference_map)) "reference_map" ≡ reference_map
  unfolding patched prop
  patched-map previous patch reference_map =
      rw
        (member-assign "reference_map" "reference_map" reference_map
          (spread previous (own_fields js patch)))
        refl

  showable :
      (previous : Fields Num) (patch reference_map : Value Num)
      → is_simulated_frame js (object (patched js previous patch reference_map)) ≡ true
      → IsShowable reference_map (object (patched js previous patch reference_map))
  unfolding is_simulated_frame
  showable previous patch reference_map h = record {
    valid = ground arith;
    simulated = ground arith;
    mapped = patched-map previous patch reference_map;
  }

  prepend-eq-some :
      (x : Value Num) (o : Option (List (Value Num))) {ys : List (Value Num)}
      → prepend js x o ≡ some ys
      → (rest : List (Value Num)) × (o ≡ some rest) × (ys ≡ x ∷ rest)
  prepend-eq-some x none h = cc
  prepend-eq-some x (some rest) h = (rest, refl, ground arith)

  decode_from-cons :
      (reference_map : Value Num) (previous : Fields Num) (patch : Value Num)
      (patches : List (Value Num)) {frames : List (Value Num)}
      → decode_from js reference_map previous (patch ∷ patches) ≡ some frames
      → let frame = patched js previous patch reference_map in
        (rest : List (Value Num)) × (decode_from js reference_map frame patches ≡ some rest)
        × (frames ≡ object frame ∷ rest)
        × IsShowable reference_map (object frame)
  unfolding decode_from
  decode_from-cons reference_map previous patch patches h =
      let frame = patched js previous patch reference_map in
      elim (Bool-cases (is_simulated_frame js (object frame))) [
        | inr bad ↦ absurd (cc (rw bad at h))
        | inl good ↦
            let (rest, e, same) =
              prepend-eq-some (object frame) (decode_from js reference_map frame patches)
                (rw good at h) in
            (rest, e, same, showable previous patch reference_map good)
      ]

  decode_from_sound :
      (reference_map : Value Num) (previous : Fields Num) (patches : List (Value Num))
      {frames : List (Value Num)}
      → decode_from js reference_map previous patches ≡ some frames
      → (length frames ≡ length patches) × All (IsShowable reference_map) frames
  decode_from_sound reference_map previous [] {frames} h =
      let none_left : frames ≡ [] = unfold decode_from in ground arith in rw none_left (refl, tt)
  decode_from_sound reference_map previous (patch ∷ patches) h =
      let (rest, e, same, shown) = decode_from-cons reference_map previous patch patches h in
      let (size, all) =
        decode_from_sound reference_map (patched js previous patch reference_map) patches e in
      rw same (ap suc size, (shown, all))

  -- A decoded chunk holds as many frames as were asked for, and each of them may be shown: it
  -- passes the message test, is marked as simulated and carries the manifest's map.
  pub decode_demo_frames_sound :
      (value reference_map : Value Num) (count : Num) {frames : List (Value Num)}
      → decode_demo_frames js value reference_map count ≡ some frames
      → (eq (decimal (length frames) 0) count ≡ true) × All (IsShowable reference_map) frames
  unfolding decode_demo_frames
  decode_demo_frames_sound (array vs) reference_map count {frames} h =
      elim (Bool-cases (eq (decimal (length (items vs)) 0) count)) [
        | inr bad ↦ absurd (cc (rw bad at h))
        | inl good ↦
            let (size, all) = decode_from_sound reference_map end (items vs) (rw good at h) in
            (rw size good, all)
      ]
  decode_demo_frames_sound _ reference_map count h = cc
