-- ===== src/Supervisor/ViewModel/Totals.antt =====
-- supervisorViewModel.ts: the counts of the view add up.
use sih.Prelude.{
  ℕ, ◌+◌, ◌≡◌, refl, Bool, true, false, List, [], ◌∷◌, length, filter, All, not, ◌&&◌, ◌||◌, arith,
  Bool-cases, inl, inr,
}
use sih.Prelude.Runtime.{Runtime}
use sih.State.World.{WorldState}
use sih.Supervisor.ViewModel.{
  SupervisorVehicle, SupervisorVehicleTone, nominal, attention, critical, lost, unknown, same_tone,
}
use sih.Supervisor.ViewModel.Vehicles.{supervisor_vehicles}
use sih.Supervisor.ViewModel.View.{count_tone, counts_of, is_online, create_supervisor_view_model}

abbrev one_if : Bool → ℕ
one_if true = 1
one_if false = 0

one_tone :
    (t : SupervisorVehicleTone)
    → one_if (same_tone t nominal)
        + one_if (same_tone t attention)
        + one_if (same_tone t critical)
        + one_if (same_tone t lost)
        + one_if (same_tone t unknown)
      ≡ 1
one_tone nominal = refl
one_tone attention = refl
one_tone critical = refl
one_tone lost = refl
one_tone unknown = refl

module _ (js : Runtime) where
  open js use {decimal, lt}

  count_tone-cons :
      (t : SupervisorVehicleTone) (v : SupervisorVehicle js) (vs : List (SupervisorVehicle js))
      → count_tone js t (v ∷ vs) ≡ one_if (same_tone v.tone t) + count_tone js t vs
  unfolding count_tone filter
  count_tone-cons t v vs = elim (Bool-cases (same_tone v.tone t)) [
    | inl e ↦ rw e (omega arith)
    | inr e ↦ rw e (omega arith)
  ]

  count_tones :
      (vs : List (SupervisorVehicle js))
      → count_tone js nominal vs
          + count_tone js attention vs
          + count_tone js critical vs
          + count_tone js lost vs
          + count_tone js unknown vs
        ≡ length vs
  count_tones [] = unfold count_tone filter in refl
  count_tones (v ∷ vs) = omega (
    arith,
    one_tone v.tone,
    count_tones vs,
    count_tone-cons nominal v vs,
    count_tone-cons attention v vs,
    count_tone-cons critical v vs,
    count_tone-cons lost v vs,
    count_tone-cons unknown v vs,
  )

  -- A vehicle with a tone other than lost that has sent nothing.
  abbrev pub is_silent : SupervisorVehicle js → Bool
  is_silent v = not (same_tone v.tone lost || lt (decimal 0 0) v.last_update_ms)

  not_both :
      (vs : List (SupervisorVehicle js))
      → All (λ v. (is_online js v && same_tone v.tone lost) ≡ false) vs
  not_both [] = tt
  not_both (v ∷ vs) =
      (apart (same_tone v.tone lost) (lt (decimal 0 0) v.last_update_ms), not_both vs)
    where
      apart : (l u : Bool) → (not l && u && l) ≡ false
      apart l u = ground arith

  online_or_lost :
      (vs : List (SupervisorVehicle js))
      → length (filter (is_online js) vs) + count_tone js lost vs + length (filter is_silent vs)
        ≡ length vs
  unfolding filter count_tone
  online_or_lost [] = omega arith
  online_or_lost (v ∷ vs) = elim (Bool-cases (same_tone v.tone lost)) [
    | inl e ↦ rw e (omega (arith, online_or_lost vs))
    | inr e ↦ elim (Bool-cases (lt (decimal 0 0) v.last_update_ms)) [
      | inl f ↦ rw (e, f) (omega (arith, online_or_lost vs))
      | inr f ↦ rw (e, f) (omega (arith, online_or_lost vs))
    ]
  ]

  -- The counts of the five tones add up to the total, which is the number of vehicles in the view,
  -- and no vehicle counts both as online and as lost.
  pub counts_add_up :
      (world : WorldState js)
      → let view = create_supervisor_view_model js world in
        let c = view.counts in
        (c.nominal + c.attention + c.critical + c.lost + c.unknown ≡ c.total)
        × All (λ v. (is_online js v && same_tone v.tone lost) ≡ false) view.vehicles
        × (c.online + c.lost + length (filter (is_silent) view.vehicles) ≡ c.total)
        × (c.total ≡ length view.vehicles)
  unfolding create_supervisor_view_model counts_of
  counts_add_up world = (
    count_tones (supervisor_vehicles js world),
    not_both (supervisor_vehicles js world),
    online_or_lost (supervisor_vehicles js world),
    refl,
  )
